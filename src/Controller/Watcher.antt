-- ===== src/Controller/Watcher.antt =====
-- src/Controller.cpp: the mutex of the configuration in the thread that watches the file,
-- `spawn_watcher`, with `reload` and `read_config`. A call gives no result where it waits forever.
use fancon.Common.{
  ◌≡◌, refl, Bool, true, false, ◌||◌, Option, none, some, List, [], ◌∷◌, ◌>>=◌, if◌then◌else◌,
}

-- A std::mutex that the thread itself holds is never free for it; `held` says whether it does.
unfoldable pub lock_config : Bool → Option Bool
lock_config held = if held then none else some true

-- The guard of `read_config`, which frees the mutex on return.
unfoldable pub read_config : Bool → Option Bool
read_config held = lock_config held >>= λ locked. some false

unfoldable pub reload_config : Bool → Option Bool
reload_config held = read_config held

-- The body of the watcher's loop, where the file has been modified or not.
unfoldable pub watch_once : Bool → Bool → Option Bool
watch_once modified held = lock_config held >>= λ locked.
    (if modified then reload_config locked else some locked) >>= λ after. some false

unfoldable pub watch : List Bool → Bool → Option Bool
watch [] held = some held
watch (modified ∷ ms) held = watch_once modified held >>= watch ms

abbrev pub any : List Bool → Bool
any [] = false
any (m ∷ ms) = m || any ms

-- The watcher goes on just as long as the file is not modified: it holds the mutex of the
-- configuration when it reloads, and the reload locks that mutex again.
pub watch-any : (ms : List Bool) → watch ms false ≡ (if any ms then none else some false)
unfolding watch watch_once reload_config read_config lock_config
watch-any [] = refl
watch-any (true ∷ ms) = refl
watch-any (false ∷ ms) = watch-any ms
