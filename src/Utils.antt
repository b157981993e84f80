-- ===== src/Utils.antt =====
-- The wrappers of pthread functions in utils/utils.c and fs/utils.c. Each differs from the others
-- only in the function that it calls, whose result it is given.
use so_project.Base.{ℕ, Option, none, some, ◌==◌, if◌then◌else◌}

-- `mutex_init`, `mutex_destroy`, `mutex_lock`, `mutex_unlock`, `cond_init`, `cond_destroy`,
-- `cond_wait`, `cond_signal` and `cond_broadcast` of utils/utils.c: `none` is the end of the process.
unfoldable pub checked_call : ℕ → Option ℕ
checked_call result = if result == 0 then some 0 else none

-- The wrappers of fs/utils.c, for locks of both kinds, which return nothing.
unfoldable pub checked_lock : ℕ → Option (Unit {0})
checked_lock result = if result == 0 then some tt else none
