-- ===== src/Sessions/SingleUse.antt =====
-- Once consumed, a review handoff is never consumed again, whatever the repository is asked to do.
use recallops.Dict
use recallops.Workflow.Snapshot.{Time, Uuid}
use recallops.Sessions.{
  Sessions, count_active, save_run, JudgeRun, ReviewHandoff, consume_attempt, JudgeSession, save,
  get_run, revoke, consume_found, redeem, reset_run, run_is_current, active_run_count,
  consume_handoff, save_handoff, is_open,
}
use recallops.Common.{
  List, String, ℕ, ◌∷◌, ◌≡◌, ◌≢◌, [], arith, none, some, ◌∙◌, Option, refl, string_eq, Bool-cases,
  inl, inr, ap, some-eq, true, sym, ◌++◌,
}
use recallops.Sessions.Handoffs.{get_run-keeps, consume_handoff_sound}
use recallops.Dict.{get-put_ne}

-- One call of the repository, with the time at which it runs.
pub data Call : Type 0 where
  attempt : Time → String → ℕ → ℕ → Call
  save_session : JudgeSession → Call
  revoke_call : Time → String → Call
  save_run_call : Time → JudgeRun → ℕ → Call
  get_run_call : Time → Uuid → Call
  reset_run_call : Time → Uuid → Call
  current_call : Time → Uuid → String → ℕ → Call
  count_call : Time → Call
  save_handoff_call : ReviewHandoff → Call
  consume_call : Time → String → Call

unfoldable pub run_call : Call → Sessions → Sessions
run_call (attempt now client limit window) s = (consume_attempt now client limit window s).1
run_call (save_session session) s = save session s
run_call (revoke_call now session_hash) s = revoke now session_hash s
run_call (save_run_call now run limit) s = (save_run now run limit s).1
run_call (get_run_call now run_id) s = (get_run now run_id s).1
run_call (reset_run_call now run_id) s = (reset_run now run_id s).1
run_call (current_call now run_id tenant generation) s =
    (run_is_current now run_id tenant generation s).1
run_call (count_call now) s = (active_run_count now s).1
run_call (save_handoff_call handoff) s = (save_handoff handoff s).1
run_call (consume_call now code_hash) s = (consume_handoff now code_hash s).1

unfoldable pub run_calls : List Call → Sessions → Sessions
unfolding run_call
run_calls [] s = s
run_calls (c ∷ cs) s = run_calls cs (run_call c s)

-- The last call runs on what the others made.
pub run_calls-append :
    (cs : List Call) (c : Call) (s : Sessions)
    → run_calls (cs ++ c ∷ []) s ≡ run_call c (run_calls cs s)
unfolding run_calls
run_calls-append [] c s = refl
run_calls-append (x ∷ xs) c s = run_calls-append xs c (run_call x s)

count_active-keeps :
    (now : Time) (ids : List Uuid) (s : Sessions) → (count_active now ids s).1.handoffs ≡ s.handoffs
unfolding count_active
count_active-keeps now [] s = refl
count_active-keeps now (run_id ∷ ids) s =
    count_active-keeps now ids (get_run now run_id s).1 ∙ get_run-keeps now run_id s

save_run-keeps :
    (now : Time) (run : JudgeRun) (limit : ℕ) (s : Sessions)
    → (save_run now run limit s).1.handoffs ≡ s.handoffs
unfolding save_run
save_run-keeps now run limit s = ground (arith, count_active-keeps now (Dict.keys s.runs) s)

module _ (k : String) (h : ReviewHandoff) (used : h.consumed_at ≢ none) where
  abbrev Stored : Sessions → Type 0
  Stored s = Dict.get k s.handoffs ≡ some h

  -- A handoff that is still open is not this one.
  reopened : (now : Time) (before : ReviewHandoff) → is_open now before ≡ true → before ≢ h
  reopened now before open_handoff same =
      used (ap (λ (x : ReviewHandoff). x.consumed_at) (sym same) ∙ unconsumed)
    where
      unconsumed : before.consumed_at ≡ none
      unconsumed = ground arith

  redeem-Stored :
      (now : Time) (c : String) (before : ReviewHandoff) (o : Option JudgeRun) (s : Sessions)
      → c ≢ k
      → Stored s
      → Stored (redeem now c before o s).1
  unfolding redeem
  redeem-Stored now c before none s other kept = kept
  redeem-Stored now c before (some run) s other kept =
      ground (arith, get-put_ne c k (record before { consumed_at = some now }) s.handoffs other)

  -- Another handoff's consumption does not touch this one, and this one is refused.
  consume_found-Stored :
      (now : Time) (c : String) (o : Option ReviewHandoff) (s : Sessions)
      → Dict.get c s.handoffs ≡ o
      → Stored s
      → Stored (consume_found now c o s).1
  unfolding consume_found
  consume_found-Stored now c none s found kept = kept
  consume_found-Stored now c (some before) s found kept = elim (Bool-cases (is_open now before)) [
    | inr closed ↦ rw closed kept
    | inl open_handoff ↦ rw open_handoff (
        redeem-Stored now c before (get_run now before.run_id s).0 (get_run now before.run_id s).1
          (λ same.
            reopened now before open_handoff
              (some-eq (sym found ∙ ap (λ x. Dict.get x s.handoffs) same ∙ kept)))
          (rw (get_run-keeps now before.run_id s) kept))
  ]

  revoke-Stored :
      (now : Time) (session_hash : String) (s : Sessions)
      → Stored s
      → Stored (revoke now session_hash s)
  unfolding revoke
  revoke-Stored now session_hash s kept = ground arith

  reset_run-Stored :
      (now : Time) (run_id : Uuid) (s : Sessions) → Stored s → Stored (reset_run now run_id s).1
  unfolding reset_run
  reset_run-Stored now run_id s kept = ground arith

  -- A stored code is not stored again.
  save_handoff-Stored :
      (other : ReviewHandoff) (s : Sessions) → Stored s → Stored (save_handoff other s).1
  unfolding save_handoff Dict.contains
  save_handoff-Stored other s kept = elim (Bool-cases (string_eq.beq other.code_hash k)) [
    | inl same ↦ ground (
      arith,
      ap (λ x. Dict.get x s.handoffs) ((string_eq.beq_iff other.code_hash k).0 same) ∙ kept,
    )
    | inr differ ↦ ground (
      arith,
      get-put_ne other.code_hash k other s.handoffs
          (λ e. cc (differ, (string_eq.beq_iff other.code_hash k).1 e)),
    )
  ]

  call-Stored : (c : Call) (s : Sessions) → Stored s → Stored (run_call c s)
  unfolding run_call
  call-Stored (attempt now client limit window) s kept = unfold consume_attempt in kept
  call-Stored (save_session session) s kept = unfold save in kept
  call-Stored (revoke_call now session_hash) s kept = revoke-Stored now session_hash s kept
  call-Stored (save_run_call now run limit) s kept = rw (save_run-keeps now run limit s) kept
  call-Stored (get_run_call now run_id) s kept = rw (get_run-keeps now run_id s) kept
  call-Stored (reset_run_call now run_id) s kept = reset_run-Stored now run_id s kept
  call-Stored (current_call now run_id tenant generation) s kept =
      unfold run_is_current in rw (get_run-keeps now run_id s) kept
  call-Stored (count_call now) s kept =
      unfold active_run_count in rw (count_active-keeps now (Dict.keys s.runs) s) kept
  call-Stored (save_handoff_call handoff) s kept = save_handoff-Stored handoff s kept
  call-Stored (consume_call now code_hash) s kept =
      unfold consume_handoff in
      consume_found-Stored now code_hash (Dict.get code_hash s.handoffs) s refl kept

  calls-Stored : (cs : List Call) (s : Sessions) → Stored s → Stored (run_calls cs s)
  unfolding run_calls
  calls-Stored [] s kept = kept
  calls-Stored (c ∷ cs) s kept = calls-Stored cs (run_call c s) (call-Stored c s kept)

  consume_used : (now : Time) (s : Sessions) → Stored s → (consume_handoff now k s).0 ≡ none
  unfolding consume_handoff consume_found
  consume_used now s kept = rw kept (elim (Bool-cases (is_open now h)) [
    | inl open_handoff ↦ absurd (reopened now h open_handoff refl)
    | inr closed ↦ rw closed
  ])

-- Once a handoff has been consumed, every further attempt is refused, after any sequence of calls
-- of the repository and at any time.
pub consume_handoff_once :
    (now later : Time) (code_hash : String) (s : Sessions) (h : ReviewHandoff) (cs : List Call)
    → (consume_handoff now code_hash s).0 ≡ some h
    → (consume_handoff later code_hash (run_calls cs (consume_handoff now code_hash s).1)).0 ≡ none
consume_handoff_once now later code_hash s h cs done =
    let (before, run, _, _, marked, kept) = consume_handoff_sound now code_hash s h done in
    let used : h.consumed_at ≢ none =
      λ e. cc (e, ap (λ (x : ReviewHandoff). x.consumed_at) marked) in
    consume_used code_hash h used later (run_calls cs (consume_handoff now code_hash s).1)
      (calls-Stored code_hash h used cs (consume_handoff now code_hash s).1 kept)
