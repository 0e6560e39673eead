-- ===== src/Script/Runtime/Processor/Run.antt =====
-- Runs of the processor: they end, and they are those of a machine whose stack is a list.
use hornet.Common.{
  ℕ, zero, suc, ◌+◌, ◌<◌, ◌≡◌, refl, sym, ap, List, [], Bytes, length, Option, none, some, Bool,
  false, arith, option_split,
}
use hornet.Script.Parser.{Parser, next, Instruction}
use hornet.Script.RoundTrip.{next_shorter}
use hornet.Script.Runtime.Engine.{StackOps, stack_ops, Machine, step_execution}
use hornet.Script.Runtime.Processor.{Processor, new_processor, peek_bool, after_step, run_loop, run}
use hornet.Script.Runtime.Simulate.{
  Simulates, stack-Simulates, list_ops, with_stack, MachineRelated, step_execution-Related,
}
use hornet.Script.Runtime.Stack.{Result, ok, fault, aborts, as_bool, Stack, empty_stack}
use hornet.Script.Runtime.Stack.Contents.{IsStack, contents}
use hornet.Script.Runtime.Stack.Refine.{Related, Holds}
use mathlib.Core.Path.{subst}

module _ {S : Type 0} (ops : StackOps S) where
  abbrev Ends : Option (Result Bool × Processor S) → Type 0
  Ends none = ⊥
  Ends (some r) = Unit {0}

  after_step-Ends :
      (p : Processor S) (parser : Parser) (k : Processor S → Option (Result Bool × Processor S))
      (x : Result (Machine S))
      → ((m : Machine S) → Ends (k (record p { parser = parser; machine = m })))
      → Ends (after_step ops p parser k x)
  unfolding after_step
  after_step-Ends p parser k (ok m) h = h m
  after_step-Ends p parser k (fault e) h = tt
  after_step-Ends p parser k aborts h = tt

  run_loop-Ends :
      (fuel : ℕ) (p : Processor S) → length p.parser.rest < fuel → Ends (run_loop ops fuel p)
  unfolding run_loop
  run_loop-Ends zero p h = absurd (omega (arith, h))
  run_loop-Ends (suc fuel) p h =
      let after = (next p.parser).1 in
      option_split Ends (next p.parser).0
        (some (peek_bool ops (record p { parser = after }), record p { parser = after }))
        (λ i. after_step ops p after (run_loop ops fuel) (step_execution ops i p.machine)) tt
        λ i found. after_step-Ends p after (run_loop ops fuel) (step_execution ops i p.machine) λ m.
          run_loop-Ends fuel (record p { parser = after; machine = m })
            (omega (arith, h, next_shorter p.parser.rest p.parser.offset i found))

module _ {S T : Type 0} (R : S → T → Type 0) (ops : StackOps S) (ops' : StackOps T)
    (sim : Simulates R ops ops') where
  -- The same processor over another stack.
  abbrev over : T → Processor S → Processor T
  over t p = record { parser = p.parser; machine = with_stack t p.machine; error = p.error }

  abbrev RunRelated :
      Option (Result Bool × Processor S) → Option (Result Bool × Processor T) → Type 0
  RunRelated none none = Unit {0}
  RunRelated none (some r) = ⊥
  RunRelated (some r) none = ⊥
  RunRelated (some (x, p)) (some (y, q)) = (x ≡ y) × (t : T) × (q ≡ over t p) × R p.machine.stack t

  peek_bool-over :
      (p : Processor S) (t : T) → R p.machine.stack t → peek_bool ops p ≡ peek_bool ops' (over t p)
  unfolding peek_bool
  peek_bool-over p t r =
      ap
        (λ (x : Result Bytes). elim x [
          | ok bytes ↦ ok (as_bool bytes)
          | fault e ↦ ok false
          | aborts ↦ ok false
        ])
        (sim.shows p.machine.stack t 0 r)

  after_step-Related :
      (p : Processor S) (t : T) (parser : Parser)
      (k : Processor S → Option (Result Bool × Processor S))
      (k' : Processor T → Option (Result Bool × Processor T)) (x : Result (Machine S))
      (y : Result (Machine T))
      → R p.machine.stack t
      → Related (MachineRelated R ops ops' sim) x y
      → ((m : Machine S) (u : T)
          → R m.stack u
          → RunRelated
              (k (record p { parser = parser; machine = m }))
              (k' (over u (record p { parser = parser; machine = m }))))
      → RunRelated (after_step ops p parser k x) (after_step ops' (over t p) parser k' y)
  unfolding after_step
  after_step-Related p t parser k k' (ok m) (ok n) r (u, e, r') h =
      subst
        (λ (n' : Machine T).
          RunRelated (k (record p { parser = parser; machine = m }))
            (k' (record { parser = parser; machine = n'; error = p.error })))
        (sym e) (h m u r')
  after_step-Related p t parser k k' (fault e) (fault f) r same h =
      (ap fault same, t, rw same refl, r)
  after_step-Related p t parser k k' aborts aborts r same h = (refl, t, refl, r)
  after_step-Related p t parser k k' (ok m) (fault f) r same h = absurd same
  after_step-Related p t parser k k' (ok m) aborts r same h = absurd same
  after_step-Related p t parser k k' (fault e) (ok n) r same h = absurd same
  after_step-Related p t parser k k' (fault e) aborts r same h = absurd same
  after_step-Related p t parser k k' aborts (ok n) r same h = absurd same
  after_step-Related p t parser k k' aborts (fault f) r same h = absurd same

  run_loop-Related :
      (fuel : ℕ) (p : Processor S) (t : T)
      → R p.machine.stack t
      → RunRelated (run_loop ops fuel p) (run_loop ops' fuel (over t p))
  unfolding run_loop
  run_loop-Related zero p t r = tt
  run_loop-Related (suc fuel) p t r =
      go
        (λ m u r'.
          run_loop-Related fuel (record p { parser = (next p.parser).1; machine = m }) u r')
        (next p.parser).0
    where
      go :
          ((m : Machine S) (u : T)
            → R m.stack u
            → let q = record p { parser = (next p.parser).1; machine = m } in
              RunRelated (run_loop ops fuel q) (run_loop ops' fuel (over u q)))
          → (found : Option Instruction)
          → let after = (next p.parser).1 in
            RunRelated
              (elim found [
                | none ↦
                    some (peek_bool ops (record p { parser = after }), record p { parser = after })
                | some i ↦
                    after_step ops p after (run_loop ops fuel) (step_execution ops i p.machine)
              ])
              (elim found [
                | none ↦ some (
                  peek_bool ops' (over t (record p { parser = after })),
                  over t (record p { parser = after }),
                )
                | some i ↦
                    after_step ops'
                      (over t p)
                      after
                      (run_loop ops' fuel)
                      (step_execution ops' i (with_stack t p.machine))
              ])
      go again none = (peek_bool-over (record p { parser = (next p.parser).1 }) t r, t, refl, r)
      go again (some i) =
          after_step-Related p t (next p.parser).1 (run_loop ops fuel) (run_loop ops' fuel) _ _ r
            (step_execution-Related R ops ops' sim i p.machine (with_stack t p.machine)
              (t, refl, r))
            again

-- What two related runs have in common, where the first ends.
abbrev RunAgrees :
    Option (Result Bool × Processor Stack) → Option (Result Bool × Processor (List Bytes)) → Type 0
RunAgrees o o' =
    (x : Result Bool) × (p : Processor Stack) × (q : Processor (List Bytes)) × (o ≡ some (x, p))
    × (o' ≡ some (x, q))
    × IsStack p.machine.stack
    × (contents p.machine.stack ≡ q.machine.stack)
    × (p.error ≡ q.error)

agree :
    (o : Option (Result Bool × Processor Stack))
    (o' : Option (Result Bool × Processor (List Bytes)))
    → Ends stack_ops o
    → RunRelated Holds stack_ops list_ops stack-Simulates o o'
    → RunAgrees o o'
agree none none ended h = absurd ended
agree none (some r) ended h = absurd ended
agree (some r) none ended h = absurd h
agree (some (x, p)) (some (y, q)) ended (same, t, e, (good, holds)) = (
  x,
  p,
  over Holds stack_ops list_ops stack-Simulates t p,
  refl,
  rw (e, same) refl,
  good,
  holds,
  refl,
)

-- The run of any script ends, and its result, error or abort is that of a machine whose stack is a
-- list of byte strings, with an error where a push makes it longer than 1,000 or with an item of more
-- than 520 bytes, or where it is too short; the stack it leaves is within those limits, its slices
-- follow one another, and its items are those of the list.
pub run-list_ops :
    (script : Bytes) (require_minimal : Bool)
    → (x : Result Bool) × (p : Processor Stack) × (q : Processor (List Bytes)) × (run stack_ops
          (new_processor empty_stack script require_minimal)
        ≡ some (x, p))
      × (run list_ops (new_processor [] script require_minimal) ≡ some (x, q))
      × IsStack p.machine.stack
      × (contents p.machine.stack ≡ q.machine.stack)
      × (p.error ≡ q.error)
unfolding run
run-list_ops script require_minimal =
    let p = new_processor empty_stack script require_minimal in
    let good : IsStack empty_stack = record { few_items = omega arith; stacked = refl } in
    agree (run_loop stack_ops (length script + 1) p)
      (run_loop list_ops (length script + 1) (new_processor [] script require_minimal))
      (run_loop-Ends stack_ops (length script + 1) p (omega arith))
      (run_loop-Related Holds stack_ops list_ops stack-Simulates (length script + 1) p []
        (good, refl))
