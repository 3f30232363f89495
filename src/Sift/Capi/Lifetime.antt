-- ===== src/Sift/Capi/Lifetime.antt =====
-- `sift_init` and `sift_destroy` of src/sift/capi.cc: the global variables `engref` and `eng`.
pub mod Balance
use rocsift_glog_fork.Sift.Capi.{status_of}
use rocsift_glog_fork.Common.Ints.{negsuc}
use rocsift_glog_fork.Sift.Capi.{EngineState}
use rocsift_glog_fork.Common.Ints.{pos, ℤ}
use rocsift_glog_fork.Common.{
  List, [], ◌∷◌, ◌++◌, map, length, get_elem?, take, drop, ℕ, zero, suc, ◌+◌, ◌-◌, ◌*◌, ◌/◌, ◌%◌,
  ◌^◌, ◌≤◌, ◌<◌, Bool, true, false, not, ◌&&◌, ◌||◌, Option, none, some, ◌≡◌, refl, sym, ap, ◌∙◌,
  if◌then◌else◌, ltb, leb, ◌==◌, arith, ◌≢◌, ◌⊎◌, inl, inr, Bool-cases, Option-cases, append-nil,
  append_assoc, length-append, lt→ltb, le→ltb, ltb→lt, ==_self, ==_differ, subst,
}
use rocsift_glog_fork.Common.Run.{
  Run, done, throw, fault, spin, ◌>>=◌, or_fault, std_exception, status_error, code_bug,
  not_privileged, out_of_range, try_catch, IsSafe, Returns,
}
use rocsift_glog_fork.Common.Run.{SiftStatus, success}

-- The pointer `eng`.
pub data Pointer : Type 0 where
  null : Pointer
  live : EngineState → Pointer
  dangling : Pointer

pub record Library : Type 0 where
  pub engref : ℤ
  pub eng : Pointer

-- The variables before the first call.
abbrev pub start : Library
start = record { engref = pos 0; eng = null }

-- `engref++` and `engref--`, which wrap around.
unfoldable pub int_increment : ℤ → ℤ
int_increment (pos n) = if n == 2 ^ 31 - 1 then negsuc (2 ^ 31 - 1) else pos (suc n)
int_increment (negsuc zero) = pos 0
int_increment (negsuc (suc n)) = negsuc n

unfoldable pub int_decrement : ℤ → ℤ
int_decrement (pos zero) = negsuc 0
int_decrement (pos (suc n)) = pos n
int_decrement (negsuc n) = if n == 2 ^ 31 - 1 then pos (2 ^ 31 - 1) else negsuc (suc n)

abbrev is_zero : ℤ → Bool
is_zero (pos zero) = true
is_zero (pos (suc n)) = false
is_zero (negsuc n) = false

-- `eng = new sift::Engine()`, where the argument is what the constructor does, and the handlers.
abbrev assign_engine : Run EngineState → ℤ → Run (SiftStatus × Library)
assign_engine (done e) r = done (success, record { engref = r; eng = live e })
assign_engine (throw x) r = done (status_of x, record { engref = r; eng = null })
assign_engine fault r = fault
assign_engine spin r = spin

-- The branch of `sift_init` for the first reference.
abbrev first_reference : Run EngineState → Pointer → ℤ → Run (SiftStatus × Library)
first_reference new null r = assign_engine new r
first_reference new (live e) r = done (code_bug, record { engref = r; eng = live e })
first_reference new dangling r = done (code_bug, record { engref = r; eng = dangling })

unfoldable pub sift_init : Run EngineState → Library → Run (SiftStatus × Library)
sift_init new l =
    if is_zero l.engref
    then first_reference new l.eng (int_increment l.engref)
    else done (success, record { engref = int_increment l.engref; eng = l.eng })

-- `delete eng`, which leaves the pointer as it is.
abbrev delete_engine : Pointer → ℤ → Run (SiftStatus × Library)
delete_engine null r = done (success, record { engref = r; eng = null })
delete_engine (live e) r = done (success, record { engref = r; eng = dangling })
delete_engine dangling r = fault

unfoldable pub sift_destroy : Library → Run (SiftStatus × Library)
sift_destroy l =
    if is_zero l.engref
    then delete_engine l.eng (int_decrement l.engref)
    else done (success, record { engref = int_decrement l.engref; eng = l.eng })

-- The calls of a user.
pub data Call : Type 0 where
  init destroy : Call

abbrev pub call : Run EngineState → Call → Library → Run (SiftStatus × Library)
call new init l = sift_init new l
call new destroy l = sift_destroy l

unfoldable pub run_calls : Run EngineState → List Call → Library → Run Library
run_calls new [] l = done l
run_calls new (c ∷ cs) l = call new c l >>= λ r. run_calls new cs r.1
