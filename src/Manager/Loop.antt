-- ===== src/Manager/Loop.antt =====
-- Every event keeps what always holds of the window, if no credential dialog is accepted while
-- another session runs.
use thinclient.Prelude.{
  zero, suc, ◌≡◌, refl, ap, subst, Bool, true, false, not, ◌||◌, Option, none, some, List, [], ◌∷◌,
  map, arith, compare_texts,
}
use thinclient.Config.{Connection}
use thinclient.Manager.{
  Manager, Modal, Purpose, asks, tells, counts, Answer, accepted, network_test, cancelled, Entered,
}
use thinclient.Manager.Worker.{Observed}
use thinclient.Manager.Start.{with_credentials, entered, remembered, go_on}
use thinclient.Manager.Events.{
  count_purpose, count_down, answer_innermost, resume_after, unwind_answered, unwind_innermost,
}
use thinclient.Manager.Invariant.{IsSound, is_counts, is_counting}
use thinclient.Manager.Keeps.{launch_session-IsSound, start_session-IsSound}

go_on-IsSound :
    (c : Connection) (e : Entered) (o : Observed) (m : Manager)
    → m.session_active ≡ false
    → IsSound m
    → IsSound (go_on c e o m)
unfolding go_on remembered
go_on-IsSound c e o m idle h =
    launch_session-IsSound (with_credentials (some (entered e)) c) o (remembered c e m) idle
      (record { threaded = h.threaded; tidy = ground (arith, h.tidy) })

-- a credential dialog is accepted only where no session runs
abbrev pub IsUndisturbed : Purpose → Answer → Bool → Type 0
IsUndisturbed (asks c) (accepted e) active = active ≡ false
IsUndisturbed (asks c) network_test active = Unit
IsUndisturbed (asks c) cancelled active = Unit
IsUndisturbed (tells c r) a active = Unit
IsUndisturbed (counts c n) a active = Unit

-- a dialog without a timer that is closed
popped-IsSound :
    (m : Manager) (d : Modal) (ds : List Modal)
    → m.modals ≡ d ∷ ds
    → is_counts d.purpose ≡ false
    → IsSound m
    → IsSound (record m { modals = ds })
popped-IsSound m d ds e f h =
    let here : (not m.countdown_id || is_counting (d ∷ ds)) ≡ true =
      subst (λ l. (not m.countdown_id || is_counting l) ≡ true) e h.tidy.counting in
    record { threaded = h.threaded; tidy = ground (arith, f, here, h.tidy) }

-- the countdown closed, with its timer
uncounted-IsSound :
    (m : Manager) (ds : List Modal) (b : Bool)
    → IsSound m
    → IsSound (record m { modals = ds; countdown_id = false; cancel_reconnect = b })
uncounted-IsSound m ds b h = record { threaded = h.threaded; tidy = ground (arith, h.tidy) }

resume_after-IsSound :
    (p : Purpose) (a : Answer) (o : Observed) (m : Manager) (d : Modal) (ds : List Modal)
    → m.modals ≡ d ∷ ds
    → d.purpose ≡ p
    → IsUndisturbed p a m.session_active
    → IsSound m
    → IsSound (resume_after p a o (record m { modals = ds }))
unfolding resume_after
resume_after-IsSound (asks c) (accepted q) o m d ds e f u h =
    go_on-IsSound c q o (record m { modals = ds }) u (popped-IsSound m d ds e (ap is_counts f) h)
resume_after-IsSound (asks c) network_test o m d ds e f u h =
    popped-IsSound m d ds e (ap is_counts f) h
resume_after-IsSound (asks c) cancelled o m d ds e f u h =
    popped-IsSound m d ds e (ap is_counts f) h
resume_after-IsSound (tells c r) (accepted q) o m d ds e f u h =
    start_session-IsSound (some c) o (record m { modals = ds })
      (popped-IsSound m d ds e (ap is_counts f) h)
resume_after-IsSound (tells c r) network_test o m d ds e f u h =
    popped-IsSound m d ds e (ap is_counts f) h
resume_after-IsSound (tells c r) cancelled o m d ds e f u h =
    popped-IsSound m d ds e (ap is_counts f) h
resume_after-IsSound (counts c n) (accepted q) o m d ds e f u h =
    start_session-IsSound (some c) o (record m { modals = ds; countdown_id = false })
      (uncounted-IsSound m ds m.cancel_reconnect h)
resume_after-IsSound (counts c n) network_test o m d ds e f u h = uncounted-IsSound m ds true h
resume_after-IsSound (counts c n) cancelled o m d ds e f u h = uncounted-IsSound m ds true h

unwind_answered-IsSound :
    (a : Option Answer) (o : Observed) (m : Manager) (d : Modal) (ds : List Modal)
    → m.modals ≡ d ∷ ds
    → ((b : Answer) → a ≡ some b → IsUndisturbed d.purpose b m.session_active)
    → IsSound m
    → IsSound (unwind_answered a d.purpose ds o m)
unfolding unwind_answered
unwind_answered-IsSound none o m d ds e u h = h
unwind_answered-IsSound (some a) o m d ds e u h =
    resume_after-IsSound d.purpose a o m d ds e refl (u a refl) h

-- what an event may not do: accept a credential dialog while another session runs
abbrev pub IsCalm : List Modal → Bool → Type 0
IsCalm [] active = Unit
IsCalm (d ∷ ds) active = (b : Answer) → d.answer ≡ some b → IsUndisturbed d.purpose b active

pub unwind_innermost-IsSound :
    (ms : List Modal) (o : Observed) (m : Manager)
    → m.modals ≡ ms
    → IsCalm ms m.session_active
    → IsSound m
    → IsSound (unwind_innermost ms o m)
unfolding unwind_innermost
unwind_innermost-IsSound [] o m e u h = h
unwind_innermost-IsSound (d ∷ ds) o m e u h = unwind_answered-IsSound d.answer o m d ds e u h

pub is_counting-respond :
    (a : Answer) (ms : List Modal) → is_counting (answer_innermost a ms) ≡ is_counting ms
is_counting-respond a [] = refl
is_counting-respond a (d ∷ ds) = refl

is_counts-count_purpose : (p : Purpose) → is_counts (count_purpose p) ≡ is_counts p
is_counts-count_purpose (asks c) = refl
is_counts-count_purpose (tells c r) = refl
is_counts-count_purpose (counts c zero) = refl
is_counts-count_purpose (counts c (suc n)) = refl

pub is_counting-count_down : (ms : List Modal) → is_counting (map count_down ms) ≡ is_counting ms
is_counting-count_down [] = refl
is_counting-count_down (d ∷ ds) = cc (is_counts-count_purpose d.purpose, is_counting-count_down ds)
