-- ===== src/Core/Coroutine.antt =====
-- Awaitables of Python, as far as they are run here: what a coroutine does to the world of the
-- caller's choice between one `await` and the next.
use wyndpy.Base.Reply.{Reply}

-- It has ended, or it runs to its next `await`, which gives what is left of it and changes the
-- world. It ends after some number of these.
pub data Coroutine (W A : Type 0) : Type 0 where
  ended : Reply A → Coroutine W A
  awaits : (W → Coroutine W A) → (W → W) → Coroutine W A

-- A run without another task in between.
unfoldable pub run_to_end : {W A : Type 0} → Coroutine W A → W → Reply A × W
run_to_end (ended x) w = (x, w)
run_to_end (awaits rest effect) w = run_to_end (rest w) (effect w)
