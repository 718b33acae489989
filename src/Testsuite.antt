-- ===== src/Testsuite.antt =====
-- testsuite/testsuite.go: what a test is to the rest of the program, and the headers of requests.
pub mod Header
use aragorn.Prelude.{Str, ℤ, Bool, List}

-- The outside of a run: the context that is passed down, and the clock. `W` holds all that a run can
-- change: the servers under test, the metadata that tests share, the time.
pub record Env (W : Type 0) : Type 0 where
  -- time.Now()
  pub now : W → ℤ
  -- ctx.Err() != nil
  pub is_done : W → Bool
  -- the select on ctx.Done() (true) and time.After of a duration (false)
  pub wait : ℤ → W → Bool × W
  -- NewMDContext(ctx, NewMD()): the tests of a suite share a new metadata map
  pub new_md : W → W

-- A test is run under a time limit, and logs errors in order.
pub record Test (W : Type 0) : Type 0 where
  pub name : Str
  pub description : Str
  pub run : ℤ → W → List Str × W
