-- ===== src/Script/Runtime/Tests.antt =====
-- The script runtime at a concrete script: 3 and 4 are added and compared with 7.
use hornet.Common.{List, [], ◌∷◌, Bytes, some, ◌≡◌, true, Bool}
use hornet.Script.Runtime.Engine.{stack_ops}
use hornet.Script.Runtime.Processor.{Processor, new_processor, run}
use hornet.Script.Runtime.Processor.Run.{run-list_ops}
use hornet.Script.Runtime.Simulate.{list_ops}
use hornet.Script.Runtime.Stack.{Result, Stack, empty_stack}
use hornet.Script.Runtime.Stack.Contents.{IsStack, contents}

abbrev sum_script : Bytes
sum_script = 0x53 ∷ 0x54 ∷ 0x93 ∷ 0x57 ∷ 0x87 ∷ []

run-list_ops_example :
    (x : Result Bool) × (p : Processor Stack) × (q : Processor (List Bytes)) × (run stack_ops
        (new_processor empty_stack sum_script true)
      ≡ some (x, p))
    × (run list_ops (new_processor [] sum_script true) ≡ some (x, q))
    × IsStack p.machine.stack
    × (contents p.machine.stack ≡ q.machine.stack)
    × (p.error ≡ q.error)
run-list_ops_example = run-list_ops sum_script true
