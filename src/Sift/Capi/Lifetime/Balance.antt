-- ===== src/Sift/Capi/Lifetime/Balance.antt =====
-- Calls of `sift_init` and `sift_destroy`, src/sift/capi.cc, in which no reference is dropped that
-- is not held.
use rocsift_glog_fork.Sift.Capi.Lifetime.{live}
use rocsift_glog_fork.Common.Ints.{pos}
use rocsift_glog_fork.Sift.Capi.Lifetime.{Library, int_decrement, start}
use rocsift_glog_fork.Sift.Capi.Lifetime.{int_increment, run_calls, sift_destroy, sift_init}
use rocsift_glog_fork.Sift.Capi.{EngineState}
use rocsift_glog_fork.Common.{
  List, [], ◌∷◌, length, ℕ, zero, suc, ◌+◌, ◌-◌, ◌^◌, ◌≤◌, ◌<◌, false, ◌≡◌, refl, sym, ap, ◌∙◌,
  ◌==◌, arith,
}
use rocsift_glog_fork.Common.Run.{Run, done, ◌>>=◌, code_bug}
use rocsift_glog_fork.Sift.Capi.Lifetime.{Call}
use rocsift_glog_fork.Common.Run.{SiftStatus, success}
use rocsift_glog_fork.Sift.Capi.Lifetime.{Call, init, destroy}

-- The references held after calls.
abbrev pub depth : ℕ → List Call → ℕ
depth n [] = n
depth n (init ∷ cs) = depth (suc n) cs
depth n (destroy ∷ cs) = depth (n - 1) cs

-- No call drops a reference that is not held.
abbrev pub Balanced : ℕ → List Call → Type 0
Balanced n [] = Unit
Balanced n (init ∷ cs) = Balanced (suc n) cs
Balanced zero (destroy ∷ cs) = ⊥
Balanced (suc n) (destroy ∷ cs) = Balanced n cs

-- A library with references to a live engine.
abbrev pub holds : ℕ → EngineState → Library
holds n e = record { engref = pos n; eng = live e }

int_increment_pos : (n : ℕ) → n < 2 ^ 31 - 1 → int_increment (pos n) ≡ pos (suc n)
unfolding int_increment
int_increment_pos n h =
    let differ : (n == 2 ^ 31 - 1) ≡ false = ground arith in rw (int_increment, differ) refl

init_held :
    (new : Run EngineState) (n : ℕ) (e : EngineState)
    → n < 2 ^ 31 - 1
    → (s : SiftStatus) × (sift_init new (holds n e) ≡ done (s, holds (suc n) e))
unfolding sift_init
init_held new zero e h = (code_bug, rw (int_increment_pos 0 h) refl)
init_held new (suc n) e h = (success, rw (int_increment_pos (suc n) h) refl)

destroy_held :
    (n : ℕ) (e : EngineState) → sift_destroy (holds (suc n) e) ≡ done (success, holds n e)
unfolding sift_destroy int_decrement
destroy_held n e = refl

run_calls-held :
    (new : Run EngineState) (n : ℕ) (cs : List Call) (e : EngineState)
    → Balanced n cs
    → n + length cs ≤ 2 ^ 31 - 1
    → run_calls new cs (holds n e) ≡ done (holds (depth n cs) e)
unfolding run_calls
run_calls-held new n [] e b h = refl
run_calls-held new n (init ∷ cs) e b h =
    let (s, i) = init_held new n e (omega arith) in
    ap (λ m. m >>= λ r. run_calls new cs r.1) i ∙ run_calls-held new (suc n) cs e b (omega arith)
run_calls-held new zero (destroy ∷ cs) e b h = absurd b
run_calls-held new (suc n) (destroy ∷ cs) e b h =
    ap (λ m. m >>= λ r. run_calls new cs r.1) (destroy_held n e)
    ∙ ap (λ k. run_calls new cs (holds k e)) refl
    ∙ run_calls-held new n cs e b (omega arith)
    ∙ ap (λ k. done (holds (depth k cs) e)) (sym (pred_suc n))
  where
    pred_suc : (n : ℕ) → suc n - 1 ≡ n
    pred_suc n = omega arith

init_first : (e : EngineState) → sift_init (done e) start ≡ done (success, holds 1 e)
unfolding sift_init int_increment
init_first e = refl

-- Once the first `sift_init` has made an engine, it stays alive, and `engref` counts the references,
-- through all further calls in which no reference is dropped that is not held, if they are fewer
-- than 2^31 - 1.
pub run_calls-alive :
    (e : EngineState) (cs : List Call)
    → Balanced 1 cs
    → length cs < 2 ^ 31 - 1
    → run_calls (done e) (init ∷ cs) start ≡ done (holds (depth 1 cs) e)
unfolding run_calls
run_calls-alive e cs b h =
    ap (λ m. m >>= λ r. run_calls (done e) cs r.1) (init_first e)
    ∙ run_calls-held (done e) 1 cs e b (omega arith)

-- After a `sift_init` that made an engine and fewer than 2^31 - 1 further calls that drop no
-- reference that is not held, and in the end all references, `sift_init` reports a code bug,
-- whatever the constructor of the engine would do.
pub sift_init-again :
    (e : EngineState) (cs : List Call) (new : Run EngineState)
    → Balanced 1 cs
    → length cs < 2 ^ 31 - 1
    → depth 1 cs ≡ 0
    → (run_calls (done e) (init ∷ cs) start >>= sift_init new) ≡ done (code_bug, holds 1 e)
unfolding sift_init
sift_init-again e cs new b h d =
    ap (λ m. m >>= sift_init new) (run_calls-alive e cs b h ∙ ap (λ k. done (holds k e)) d) ∙ again
  where
    again : sift_init new (holds 0 e) ≡ done (code_bug, holds 1 e)
    again = rw (int_increment_pos 0 (omega arith)) refl
