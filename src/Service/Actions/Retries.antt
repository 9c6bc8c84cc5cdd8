-- ===== src/Service/Actions/Retries.antt =====
-- The limit on inconclusive evaluations, after which a deployment is frozen.
use modelops_control_plane.Base.{
  ℕ, zero, suc, ◌+◌, ◌≡◌, refl, true, arith, is_ok, Result-cases, Result, ok, ◌>>=◌, inl, inr,
}
use modelops_control_plane.Status.{inconclusive, validate_transition}
use modelops_control_plane.Service.Session.{ServiceError, Session, require_active, transition}
use modelops_control_plane.Service.Actions.{inconclusive_session, leave_canary_running}
use modelops_control_plane.Service.Actions.Effects.{is_active, inconclusive_session-ok}

-- `n` inconclusive evaluations in a row.
unfoldable pub retry : (n now limit : ℕ) → Session → Result ServiceError Session
retry zero now limit s = ok s
retry (suc n) now limit s = inconclusive_session now limit s >>= retry n now limit

inconclusive_session-accepts :
    (now limit : ℕ) (s : Session)
    → is_active s.row.status ≡ true
    → (s' : Session) × (inconclusive_session now limit s ≡ ok s')
inconclusive_session-accepts now limit s active =
    let accepts : is_ok (inconclusive_session now limit s) ≡ true =
      unfold inconclusive_session require_active leave_canary_running transition
        validate_transition in
      ground arith in
    elim (Result-cases (inconclusive_session now limit s)) [
      | inl (s', e) ↦ (s', e)
      | inr (error, e) ↦ absurd (ground arith)
    ]

-- An active deployment is frozen by the inconclusive evaluation that brings its count past the
-- limit, and by none before it: where the count c is at most the limit, limit - c evaluations leave
-- the status as it is and are counted, and one more makes it INCONCLUSIVE.
pub retries_freeze :
    (n now limit : ℕ) (s : Session)
    → is_active s.row.status ≡ true
    → s.row.inconclusive_retry_count + n ≡ limit
    → ((before : Session) × (retry n now limit s ≡ ok before)
        × (before.row.status ≡ s.row.status)
        × (before.row.inconclusive_retry_count ≡ limit))
      × ((frozen : Session) × (retry (suc n) now limit s ≡ ok frozen)
          × (frozen.row.status ≡ inconclusive))
unfolding retry
retries_freeze zero now limit s active at =
    let (s', e) = inconclusive_session-accepts now limit s active in
    let (_, row, _, _) = inconclusive_session-ok now limit s e in
    ((s, refl, refl, omega (arith, at)), (s', rw e refl, ground arith))
retries_freeze (suc n) now limit s active at =
    let (s', e) = inconclusive_session-accepts now limit s active in
    let (_, row, _, _) = inconclusive_session-ok now limit s e in
    let rest = retries_freeze n now limit s' (ground arith) (ground arith) in
    let ((a, ea, sa, ca), (b, eb, sb)) = rest in ((a, rw e ea, ground arith, ca), (b, rw e eb, sb))
