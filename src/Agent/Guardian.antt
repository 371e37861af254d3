-- ===== src/Agent/Guardian.antt =====
-- workers/src/zippy_workers/loop_guardian.py: the gate before every tool call of a tick. `digest`
-- stands for the hexadecimal SHA-256 of the standard library.
mod Counter
pub mod Budget
pub mod Repeats
use new_logistic.Prelude.{
  ℕ, ◌+◌, ◌-◌, String, concat, slice, Bool, true, false, Option, none, some, List, [], ◌∷◌, not,
  ltb, leb, if◌then◌else◌,
}
use new_logistic.Prelude.Dict.{Dict, lookup, insert}

pub data Decision : Type 0 where
  allow deny blocked : Decision

pub record GuardianVerdict : Type 0 where
  pub decision : Decision
  pub reason : Option String

pub record LoopGuardian : Type 0 where
  pub max_tool_calls : ℕ
  pub max_repeat_threshold : ℕ
  pub calls_used : ℕ
  pub seen : Dict ℕ

-- A guardian as its class makes it.
unfoldable pub new_guardian : ℕ → ℕ → LoopGuardian
new_guardian max_tool_calls max_repeat_threshold = record {
  max_tool_calls = max_tool_calls;
  max_repeat_threshold = max_repeat_threshold;
  calls_used = 0;
  seen = [];
}

unfoldable pub reset_tick : LoopGuardian → LoopGuardian
reset_tick g = record g { calls_used = 0; seen = [] }

-- Python's difference; `calls_used` does not pass the cap (`Budget`), so it is not negative.
unfoldable pub calls_remaining : LoopGuardian → ℕ
calls_remaining g = g.max_tool_calls - g.calls_used

-- A read of a `Counter`: a missing key counts 0.
abbrev pub count : String → Dict ℕ → ℕ
count k d = elim (lookup k d) [ none ↦ 0 | some n ↦ n ]

-- The arguments of `admit`; the score is in millionths.
pub record Call : Type 0 where
  pub tool : String
  pub args_hash : Option String
  pub capabilities_check : Bool
  pub required_capability_satisfied : Bool
  pub payload_valid : Bool
  pub hallucination_score : ℕ

abbrev pub verdict : Decision → String → GuardianVerdict
verdict d reason = record { decision = d; reason = some reason }

module _ (digest : String → String) where
  -- The key of the repeat counter: the tool, or 24 digits of the digest of tool and arguments.
  unfoldable pub repeat_key : Call → String
  repeat_key c = elim c.args_hash [
    | none ↦ c.tool
    | some h ↦ slice (digest (concat c.tool (concat ":" h))) 0 24
  ]

  -- The last steps of `admit`, on the counter that the call has raised.
  admit_counted : Call → LoopGuardian → GuardianVerdict × LoopGuardian
  admit_counted c g =
      if ltb g.max_repeat_threshold (count (repeat_key c) g.seen)
      then (verdict blocked "repetitive_loop_detected", g)
      else if not c.capabilities_check
      then (verdict deny "capability_disabled", g)
      else (record { decision = allow; reason = none }, record g { calls_used = g.calls_used + 1 })

  unfoldable pub admit : Call → LoopGuardian → GuardianVerdict × LoopGuardian
  unfolding admit_counted
  admit c g =
      if not c.required_capability_satisfied
      then (verdict deny "unauthorized", g)
      else if leb g.max_tool_calls g.calls_used
      then (verdict deny "tool_call_cap_reached", g)
      else if not c.payload_valid
      then (verdict blocked "malformed_payload", g)
      else if leb 950000 c.hallucination_score
      then (verdict blocked "hallucination_detected", g)
      else admit_counted c
          (record g { seen = insert (repeat_key c) (count (repeat_key c) g.seen + 1) g.seen })

  -- The calls of one tick in order, with their verdicts.
  unfoldable pub admit_all : List Call → LoopGuardian → List (Call × GuardianVerdict) × LoopGuardian
  admit_all [] g = ([], g)
  admit_all (c ∷ cs) g =
      let (v, g') = admit c g in let (trace, last) = admit_all cs g' in ((c, v) ∷ trace, last)

abbrev pub is_allow : GuardianVerdict → Bool
is_allow v = elim v.decision [ allow ↦ true | deny ↦ false | blocked ↦ false ]
