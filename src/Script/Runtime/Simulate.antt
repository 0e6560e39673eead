-- ===== src/Script/Runtime/Simulate.antt =====
-- Two stacks whose operations agree make every instruction agree.
use hornet.Common.{ℕ, ◌≡◌, refl, sym, List, [], ◌∷◌, Bytes, Bool, not, ◌&&◌, ◌==◌, if◌then◌else◌}
use hornet.Script.Op.{is_push}
use hornet.Script.Parser.{Instruction}
use hornet.Script.Runtime.Engine.{
  StackOps, stack_ops, Machine, ◌>>=◌, minimal_op, on_add, on_equal, on_duplicate, run_handler,
  execute, counted, step_execution, Handler, push_empty_handler, push_data_handler,
  push_const_handler, drop_handler, duplicate_handler, equal_handler, add_handler, unknown_handler,
  get_handler, is_op_limit,
}
use hornet.Script.Runtime.Stack.{
  Result, ok, fault, aborts, push, pop, peek_at, non_minimal_push, op_count_excessive,
}
use hornet.Script.Runtime.Stack.Refine.{
  list_push, list_pop, list_peek, Related, Related-if, Holds, push-Refines, pop-Refines,
  peek_at-list_peek,
}
use mathlib.Core.Path.{subst}

pub Related-bind :
    {A B C D : Type 0} (R : A → B → Type 0) (Q : C → D → Type 0) (x : Result A) (y : Result B)
    (f : A → Result C) (g : B → Result D)
    → Related R x y
    → ((a : A) (b : B) → R a b → Related Q (f a) (g b))
    → Related Q (x >>= f) (y >>= g)
Related-bind R Q (ok a) (ok b) f g h k = k a b h
Related-bind R Q (fault e) (fault e') f g h k = h
Related-bind R Q aborts aborts f g h k = tt
Related-bind R Q (ok a) (fault e) f g h k = absurd h
Related-bind R Q (ok a) aborts f g h k = absurd h
Related-bind R Q (fault e) (ok b) f g h k = absurd h
Related-bind R Q (fault e) aborts f g h k = absurd h
Related-bind R Q aborts (ok b) f g h k = absurd h
Related-bind R Q aborts (fault e) f g h k = absurd h

-- The same result, and what comes behind it.
same-bind :
    {A C D : Type 0} (Q : C → D → Type 0) (x y : Result A) (f : A → Result C) (g : A → Result D)
    → x ≡ y
    → ((a : A) → Related Q (f a) (g a))
    → Related Q (x >>= f) (y >>= g)
same-bind Q x y f g e k = subst (λ z. Related Q (x >>= f) (z >>= g)) e (go x)
  where
    go : (x : Result _) → Related Q (x >>= f) (x >>= g)
    go (ok a) = k a
    go (fault e) = refl
    go aborts = tt

-- Related stacks stay so, and show the same items.
pub record Simulates {S T : Type 0} (R : S → T → Type 0) (ops : StackOps S) (ops' : StackOps T)
    : Type 0 where
  pub pushes :
      (s : S) (t : T) (payload : Bytes)
      → R s t
      → Related R (ops.push_item payload s) (ops'.push_item payload t)
  pub pops : (s : S) (t : T) (n : ℕ) → R s t → Related R (ops.pop_items n s) (ops'.pop_items n t)
  pub shows : (s : S) (t : T) (k : ℕ) → R s t → ops.item_at k s ≡ ops'.item_at k t

abbrev pub list_ops : StackOps (List Bytes)
list_ops = record { push_item = list_push; pop_items = list_pop; item_at = list_peek }

pub stack-Simulates : Simulates Holds stack_ops list_ops
stack-Simulates = record {
  pushes = λ s t payload (good, e).
      subst (λ t'. Related Holds (push payload s) (list_push payload t')) e
        (push-Refines s payload good);
  pops = λ s t n (good, e).
      subst (λ t'. Related Holds (pop n s) (list_pop n t')) e (pop-Refines s n good);
  shows = λ s t k (good, e). subst (λ t'. peek_at k s ≡ list_peek k t') e (peek_at-list_peek s k);
}

-- The same machine over another stack.
abbrev pub with_stack : {S T : Type 0} → T → Machine S → Machine T
with_stack t m = record {
  stack = t;
  non_push_op_count = m.non_push_op_count;
  require_minimal = m.require_minimal;
  version = m.version;
}

module _ {S T : Type 0} (R : S → T → Type 0) (ops : StackOps S) (ops' : StackOps T)
    (sim : Simulates R ops ops') where
  on_add-Related :
      (require_minimal : Bool) (s : S) (t : T)
      → R s t
      → Related R (on_add ops require_minimal s) (on_add ops' require_minimal t)
  unfolding on_add
  on_add-Related require_minimal s t r = same-bind R _ _ _ _ (sim.shows s t 1 r) λ a.
      same-bind R _ _ _ _ refl λ x1. same-bind R _ _ _ _ (sim.shows s t 0 r) λ b.
        same-bind R _ _ _ _ refl
          λ x2. Related-bind R R _ _ _ _ (sim.pops s t 2 r) λ s' t' r'. sim.pushes s' t' _ r'

  on_equal-Related : (s : S) (t : T) → R s t → Related R (on_equal ops s) (on_equal ops' t)
  unfolding on_equal
  on_equal-Related s t r = same-bind R _ _ _ _ (sim.shows s t 1 r) λ x1.
      same-bind R _ _ _ _ (sim.shows s t 0 r)
        λ x2. Related-bind R R _ _ _ _ (sim.pops s t 2 r) λ s' t' r'. sim.pushes s' t' _ r'

  on_duplicate-Related :
      (s : S) (t : T) → R s t → Related R (on_duplicate ops s) (on_duplicate ops' t)
  unfolding on_duplicate
  on_duplicate-Related s t r =
      same-bind R _ _ _ _ (sim.shows s t 0 r) λ payload. sim.pushes s t payload r

  guarded-Related :
      (require_minimal : Bool) (i : Instruction) (payload : Bytes) (s : S) (t : T)
      → R s t
      → let broken = require_minimal && not (i.opcode == minimal_op i.payload) in
        Related R
          (if broken then fault non_minimal_push else ops.push_item payload s)
          (if broken then fault non_minimal_push else ops'.push_item payload t)
  guarded-Related require_minimal i payload s t r =
      Related-if R (require_minimal && not (i.opcode == minimal_op i.payload))
        (fault non_minimal_push) (ops.push_item payload s) (fault non_minimal_push)
        (ops'.push_item payload t) (λ _. refl) λ _. sim.pushes s t payload r

  run_handler-Related :
      (handler : Handler) (require_minimal : Bool) (i : Instruction) (s : S) (t : T)
      → R s t
      → Related R
          (run_handler ops handler require_minimal i s)
          (run_handler ops' handler require_minimal i t)
  unfolding run_handler
  run_handler-Related push_empty_handler require_minimal i s t r =
      guarded-Related require_minimal i [] s t r
  run_handler-Related push_data_handler require_minimal i s t r =
      guarded-Related require_minimal i i.payload s t r
  run_handler-Related (push_const_handler byte) require_minimal i s t r =
      sim.pushes s t (byte ∷ []) r
  run_handler-Related drop_handler require_minimal i s t r = sim.pops s t 1 r
  run_handler-Related duplicate_handler require_minimal i s t r = on_duplicate-Related s t r
  run_handler-Related equal_handler require_minimal i s t r = on_equal-Related s t r
  run_handler-Related add_handler require_minimal i s t r = on_add-Related require_minimal s t r
  run_handler-Related unknown_handler require_minimal i s t r = tt

  -- Machines that differ in their related stacks alone.
  abbrev pub MachineRelated : Machine S → Machine T → Type 0
  MachineRelated m n = (t : T) × (n ≡ with_stack t m) × R m.stack t

  step_execution_over :
      (i : Instruction) (m : Machine S) (t : T)
      → R m.stack t
      → Related MachineRelated (step_execution ops i m) (step_execution ops' i (with_stack t m))
  unfolding step_execution execute
  step_execution_over i m t r =
      let handler = get_handler i.opcode in
      let minimal = m.require_minimal in
      let after : S → Result (Machine S) = λ s'. ok (counted i.opcode m s') in
      let after' : T → Result (Machine T) = λ t'. ok (counted i.opcode (with_stack t m) t') in
      Related-if MachineRelated
        (not (is_push i.opcode) && is_op_limit m.version m.non_push_op_count)
        (fault op_count_excessive) (run_handler ops handler minimal i m.stack >>= after)
        (fault op_count_excessive) (run_handler ops' handler minimal i t >>= after') (λ _. refl)
        λ _.
          Related-bind R MachineRelated (run_handler ops handler minimal i m.stack)
            (run_handler ops' handler minimal i t) after after'
            (run_handler-Related handler minimal i m.stack t r) λ s' t' r'. (t', refl, r')

  pub step_execution-Related :
      (i : Instruction) (m : Machine S) (n : Machine T)
      → MachineRelated m n
      → Related MachineRelated (step_execution ops i m) (step_execution ops' i n)
  step_execution-Related i m n (t, e, r) =
      subst (λ k. Related MachineRelated (step_execution ops i m) (step_execution ops' i k)) (sym e)
        (step_execution_over i m t r)
