-- ===== src/Script/Runtime/Processor.antt =====
-- src/hornetlib/protocol/script/processor.{h,cpp}: the instructions of a script, one after another. An
-- error stays until the processor is reset.
pub mod Run
use hornet.Common.{ℕ, zero, suc, ◌+◌, Bytes, length, Option, none, some, Bool, true, false, not}
use hornet.Script.Parser.{Parser, parse_from, next, peek}
use hornet.Script.Runtime.Engine.{StackOps, legacy, Machine, step_execution}
use hornet.Script.Runtime.Stack.{Error, Result, ok, fault, aborts, as_bool}

pub record Processor (S : Type 0) : Type 0 where
  pub parser : Parser
  pub machine : Machine S
  pub error : Option Error

-- The constructor, and Reset: the machine is new, and of the version that a legacy script has.
abbrev pub new_processor : {S : Type 0} → S → Bytes → Bool → Processor S
new_processor empty script require_minimal = record {
  parser = parse_from script;
  machine = record {
    stack = empty;
    non_push_op_count = 0;
    require_minimal = require_minimal;
    version = legacy;
  };
  error = none;
}

unfoldable pub reset : {S : Type 0} → S → Processor S → Bytes → Processor S
reset empty p script = new_processor empty script p.machine.require_minimal

unfoldable pub is_finished : {S : Type 0} → Processor S → Bool
unfolding peek
is_finished p = elim (peek p.parser) [ none ↦ true | some op ↦ false ]

module _ {S : Type 0} (ops : StackOps S) where
  -- PeekBool: false for an empty stack.
  unfoldable pub peek_bool : Processor S → Result Bool
  unfolding as_bool
  peek_bool p = elim (ops.item_at 0 p.machine.stack) [
    | ok bytes ↦ ok (as_bool bytes)
    | fault e ↦ ok false
    | aborts ↦ ok false
  ]

  -- What follows an instruction: the rest, or the error, which stays. The parser has moved on.
  unfoldable pub after_step :
      Processor S
      → Parser
      → (Processor S → Option (Result Bool × Processor S))
      → Result (Machine S)
      → Option (Result Bool × Processor S)
  after_step p parser k (ok m) = k (record p { parser = parser; machine = m })
  after_step p parser k (fault e) = some (fault e, record p { parser = parser; error = some e })
  after_step p parser k aborts = some (aborts, record p { parser = parser })

  unfoldable pub step : Processor S → Option (Result Bool × Processor S)
  unfolding next step_execution after_step is_finished
  step p = elim p.error [
    | some e ↦ some (fault e, p)
    | none ↦
        let parser = (next p.parser).1 in
        elim (next p.parser).0 [
          | none ↦
              some (
                ok (not (is_finished (record p { parser = parser }))),
                record p { parser = parser },
              )
          | some i ↦
              after_step p parser (λ q. some (ok (not (is_finished q)), q))
                (step_execution ops i p.machine)
        ]
  ]

  -- The loop of Run, on fuel; `none` is a lack of fuel.
  unfoldable pub run_loop : ℕ → Processor S → Option (Result Bool × Processor S)
  unfolding next step_execution after_step peek_bool
  run_loop zero p = none
  run_loop (suc fuel) p =
      let parser = (next p.parser).1 in
      elim (next p.parser).0 [
        | none ↦ some (peek_bool (record p { parser = parser }), record p { parser = parser })
        | some i ↦ after_step p parser (run_loop fuel) (step_execution ops i p.machine)
      ]

  unfoldable pub run : Processor S → Option (Result Bool × Processor S)
  unfolding run_loop
  run p = elim p.error [ some e ↦ some (fault e, p) | none ↦ run_loop (length p.parser.rest + 1) p ]
