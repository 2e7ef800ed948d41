-- ===== src/Surface/Direct.antt =====
-- wyndpy/surface/direct.py: a call of an adapter or of the router from synchronous code.
pub mod Fired
mod Tests
use wyndpy.Base.{Bool, if◌then◌else◌}
use wyndpy.Base.Reply.{Reply, raised, other}
use wyndpy.Core.Coroutine.{Coroutine, run_to_end}

-- `asyncio.run(coro)`, which is refused inside an event loop that runs already.
unfoldable pub run_sync : {W A : Type 0} → Bool → Coroutine W A → W → Reply A × W
run_sync in_loop coro w =
    if in_loop
    then (raised (other "asyncio.run() cannot be called from a running event loop"), w)
    else run_to_end coro w
