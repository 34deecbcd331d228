-- ===== src/Recovery/Votes/Window.antt =====
-- A vote after the window: `decide` and `describeApproval` on a request whose time has passed.
use open_privy.Base.{ℕ, ◌<◌, Text, Option, some, err, ◌≡◌, ◌≢◌, ◌∙◌, refl, arith}
use open_privy.Store.{World, RecoveryRequest, RecoveryApproval, expired}
use open_privy.Recovery.{Env}
use open_privy.Recovery.Requests.{close}
use open_privy.Recovery.Votes.{
  Decision, approve, decline, other, invalid_link, in_window, find_open_approval, cast, decide,
}
use open_privy.Recovery.Votes.Inversion.{Names, find_open_approval-Names}

abbrev pub expired_at : ℕ → RecoveryRequest → RecoveryRequest
expired_at now q = record q {
  status = expired;
  closed_at = some now;
  closed_reason = some "Guardians did not respond in time";
}

module _ (env : Env) (now : ℕ) (token : Option Text) (s : World) (a : RecoveryApproval)
    (q : RecoveryRequest) (n : Names env token s a q) (late : q.approvals_expire_at < now) where
  in_window-late :
      in_window env now a q s
      ≡ (err invalid_link, (close now q expired "Guardians did not respond in time" s).1)
  unfolding in_window close
  in_window-late = ground arith

  closed : World
  closed = (close now q expired "Guardians did not respond in time" s).1

  find_open_approval-late : find_open_approval env now token s ≡ (err invalid_link, closed)
  unfolding closed
  find_open_approval-late = find_open_approval-Names env now token s a q n ∙ in_window-late

  cast-late : (d : Decision) → cast env now token d s ≡ (err invalid_link, closed)
  unfolding cast
  cast-late d = rw find_open_approval-late

  -- For a token that names an undecided approval of a request whose approval window has passed, a
  -- vote of either kind is refused and nothing is written: the transaction also undoes the closing
  -- of the request, which stays open.
  pub decide_late : (d : Decision) → d ≢ other → decide env now token d s ≡ (err invalid_link, s)
  unfolding decide closed close
  decide_late approve h = rw (cast-late approve)
  decide_late decline h = rw (cast-late decline)
  decide_late other h = absurd (h refl)
