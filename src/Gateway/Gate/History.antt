-- ===== src/Gateway/Gate/History.antt =====
-- Histories of one gateway: calls of its two deciding methods and the passing of time, in any order.
use company_command.Prelude.{ℕ, ◌+◌, ◌≡◌, Option, some, List, [], ◌∷◌, lookup}
use company_command.Ids.{Platform}
use company_command.Gateway.Intents.Pins.{DigestPins}
use company_command.Gateway.Intents.{ActionIntent}
use company_command.Gateway.Verifier.{Assertion}
use company_command.Gateway.State.{World, new_world}
use company_command.Gateway.Receipts.{Gateway, GateOutcome, authorized}
use company_command.Gateway.Gate.{decide, submit_approval}
use company_command.Gateway.Gate.Quorum.{decide-IsSound, submit_approval-IsSound}
use company_command.Gateway.Gate.Soundness.{IsSoundWorld}
use company_command.Gateway.Gate.Control.{IsApproved, submit_approval-IsApproved}

pub data Call : Type 0 where
  decides : ActionIntent → Option Assertion → Call
  submits : ActionIntent → Assertion → Call
  waits : (seconds : ℕ) → Call

module _ (p : Platform) (g : Gateway) where
  unfoldable pub call : Call → World → World
  call (decides i o) w = (decide p g i o w).1
  call (submits i x) w = (submit_approval p g i x w).1
  call (waits seconds) w = record w { now = w.now + seconds }

  unfoldable pub run : List Call → World → World
  run [] w = w
  run (c ∷ cs) w = run cs (call c w)

module _ (p : Platform) (pins : DigestPins p) (g : Gateway) where
  run-IsSound : (cs : List Call) (w : World) → IsSoundWorld p g w → IsSoundWorld p g (run p g cs w)
  unfolding run call
  run-IsSound [] w h = h
  run-IsSound (decides i o ∷ cs) w h = run-IsSound cs _ (decide-IsSound p pins g i o w h)
  run-IsSound (submits i x ∷ cs) w h = run-IsSound cs _ (submit_approval-IsSound p pins g i x w h)
  run-IsSound (waits n ∷ cs) w h = run-IsSound cs (record w { now = w.now + n }) h

  -- When digests pin their intents: after any history of a new gateway, a submission that is answered
  -- `authorized` stands for a known action of tier A2 or A3 whose approval, now retired, counts
  -- distinct principals, each among the roles that the policy of the action names, at least as many as
  -- its quorum, and at least two for A3.
  pub authorized-IsApproved :
      (cs : List Call) (i : ActionIntent) (x : Assertion) (out : GateOutcome) (after : World)
      → submit_approval p g i x (run p g cs new_world) ≡ (some out, after)
      → out.decision ≡ authorized
      → IsApproved p g i after
  unfolding lookup
  authorized-IsApproved cs i x out after e granted =
      submit_approval-IsApproved p pins g i x (run p g cs new_world) after out
        (run-IsSound cs new_world (λ k pa found. cc)) e granted
