-- ===== src/Timeline/Snapshots.antt =====
-- What the timeline says of the checks that the policy service has recorded.
use modelops_control_plane.Base.{◌≡◌, true, false}
use modelops_control_plane.Store.{PolicyEvaluation}
use modelops_control_plane.Policy.Tone.{tone, TellsResult}
use modelops_control_plane.Timeline.{TimelineItem, event_item, policy_item, is_some_weight}

-- A row with a result that its explanation tells, and with the traffic of its time.
abbrev pub IsRecorded : PolicyEvaluation → Type 0
IsRecorded e =
    TellsResult e.policy_name e.observed_value e.threshold e.result
    × (is_some_weight e.canary_weight ≡ true)

-- An item that tells its result, from the weight that was recorded.
abbrev pub IsFaithful : TimelineItem → Type 0
IsFaithful (event_item timestamp body) = Unit
IsFaithful (policy_item item) = (tone item.explanation ≡ item.result) × (item.is_estimated ≡ false)
