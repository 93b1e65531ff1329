-- ===== src/Lib.antt =====
-- A verification library for fancon, a fan controller for Linux: a service that reads temperatures,
-- drives fans along curves that the user gives, and tests fans to learn how they answer.
--
-- The parts of the program, and the files that model them:
-- * A fan (src/fan/Fan.hpp, src/fan/Fan.cpp): Fan.antt holds its members. One round of `update` is in
--   Fan/Curve.antt (the curve), Fan/Smooth.antt (`smooth_rpm`) and Fan/Closest.antt
--   (`find_closest_pwm`), put together in Fan/Update.antt; the conversions are in Fan/Percent.antt,
--   the map that a test leaves in Fan/Mapping.antt, and `test` with all that it calls in
--   Fan/Testing.antt. Fan/Parse.antt has the parsers of the texts of a fan's maps, with their regular
--   expressions, and Fan/Message.antt `from`, `to` and `deep_equal` of all kinds of fans.
-- * The hardware of a fan, the virtual functions of `fc::Fan`, is a record of functions over a world
--   `W` (Fan/Driver.antt). Fan/World.antt has the monad in which a test runs: a value and a new
--   world, or undefined behaviour, or no fuel left.
-- * The controller (src/Controller.cpp, src/fan/FanTask.cpp): Controller.antt has the tasks by the
--   fan's label, and what enables and disables fans; Controller/Test.antt the start and the end of
--   a test; Controller/Merge.antt the merging of devices and `reload`, Controller/Sensors.antt the
--   same for the sensors. These take each operation as one step; Controller/Blocked.antt says which of
--   the calls join the thread of a test and so never return, and Controller/Abstract.antt is the
--   machine of statuses that the others refine. Controller/Threads.antt has the steps of `disable` and of a
--   task's thread with the mutex between them, in any interleaving; Controller/Watcher.antt the mutex
--   of the configuration and Controller/File.antt its file; Controller/Observers.antt the calls of
--   the observers. What the controller asks of a fan is the record `FanOps`.
-- * The service (src/Service.cpp, src/main.cpp): Service.antt has the calls over the controller, with
--   their status; Service/Settings.antt those that read and set the settings, Service/Subscribe.antt
--   what a subscription writes, Service/Daemon.antt `daemonize`, the start of the program and its end.
--   Util/Removable.antt has the mutex that guards the end of a subscription, as steps of threads.
-- * Sensors (src/sensor): Sensor.antt has the average of the temperatures, Sensor/Sysfs.antt what
--   the files of a sensor mean, Sensor/Message.antt its constructor, its paths and its messages.
-- * Dell fans (src/dell): Dell.antt, and Dell/Smm.antt for the calls to the firmware. NVIDIA
--   (src/nvidia): Nvidia.antt, with the names of the GPUs in Nvidia/Names.antt and the control of a
--   fan and the start of the library in Nvidia/Library.antt.
-- * Devices (src/Devices.cpp): Devices.antt has those of a configuration, Devices/Enumerate.antt
--   those that the chips list, Devices/Message.antt the message of all of them, which
--   Devices/RoundTrip.antt reads back for the fans of the program.
-- * Fans of the kernel's files (src/fan/FanSysfs.cpp): Sysfs.antt, with the constructor and the paths in
--   Sysfs/Paths.antt. Command lines (src/main.cpp, src/util/Args.cpp): Arguments.antt for the loop
--   over the words, Arguments/Words.antt for a word.
-- * The client (src/Client.cpp): Client.antt has the choice of a command, Client/Output.antt what the
--   commands print, Client/Sysinfo.antt the system information with its listing of a directory.
--   Shared functions (src/util): Util.antt, with the texts of numbers and maps in Util/Text.antt, and
--   the file system, a record of functions over a world, in Util/Files.antt.
-- Common.antt and its children hold the lists, integers, 32-bit words and ordered maps that the
-- parts share. Each part has a module of examples with tests and instances of its theorems.
--
-- Numbers: a `uint` is a native number, and the operations that may wrap write out the wrap-around
-- (Common/Words.antt); an `int` is an integer. A `std::map` is a list of pairs in the order of its
-- keys. The `double` of the interpolation is a parameter (`Doubles`) with the facts of IEEE 754 that
-- the code relies on; where a product of doubles is rounded to an integer in a small range, its
-- value is written as a quotient of integers. A text that is read or measured is a list of code
-- points, a name that is only compared a `String`.
--
-- Loops over lists are structural. The decimal print of a number runs on fuel above the number, which
-- it never uses up, and so does the listing of linked directories, for which two levels are enough
-- (Client/Sysinfo/Links.antt). The loops of a test wait for the hardware, so they run on fuel: for a
-- fan that holds each PWM and turns at a fixed speed for it, Fan/Testing/Total.antt shows that 129
-- rounds are enough for a whole test, if the fan stands still at 0; Fan/Testing/Steady.antt shows the
-- one loop that no fuel lets end, if it does not.
--
-- Not modelled: the generated messages and gRPC, which are code of other projects; libsensors, X11,
-- libXNVCtrl and the firmware calls in assembly, whose effects are parameters; NVML, which nothing
-- uses; logging and the help that the client prints.
pub mod Common
pub mod Fan
pub mod Nvidia
pub mod Sensor
pub mod Dell
pub mod Controller
pub mod Devices
pub mod Sysfs
pub mod Util
pub mod Service
pub mod Arguments
pub mod Client
