-- ===== src/Marg/Polling.antt =====
-- The polling of a job by `poll_status` of integrations/marg_hook/nexus_marg_sync.py.
use nexus_inventory_platform.Base.{
  ℕ, zero, suc, String, Option, none, some, false, str_eq, ◌+◌, ◌<◌, ◌≡◌, ◌≢◌, refl, arith, ap,
  subst, ◌∙◌, if◌then◌else◌,
}
use nexus_inventory_platform.Marg.{
  Polled, finished, sync_failed, timed_out, call_failed, poll_rounds, poll_status,
}

-- The job is still at work: a status that is neither of the final ones.
abbrev pub Waits : Option String → Type 0
Waits none = ⊥
Waits (some status) = (str_eq status "completed" ≡ false) × (str_eq status "failed" ≡ false)

-- What one answer says of the job; `timed_out` is nothing final.
abbrev pub verdict : Option String → Polled
verdict none = call_failed
verdict (some status) =
    if str_eq status "completed"
    then finished
    else if str_eq status "failed"
    then sync_failed
    else timed_out

poll_rounds_wait :
    (rounds : ℕ) (reply : ℕ → Option String) (k : ℕ) (o : Option String)
    → reply k ≡ o
    → Waits o
    → poll_rounds (suc rounds) reply k ≡ poll_rounds rounds reply (suc k)
unfolding poll_rounds
poll_rounds_wait rounds reply k none e h = absurd h
poll_rounds_wait rounds reply k (some status) e h = ground (arith, e)

poll_rounds_final :
    (rounds : ℕ) (reply : ℕ → Option String) (k : ℕ) (o : Option String)
    → reply k ≡ o
    → verdict o ≢ timed_out
    → poll_rounds (suc rounds) reply k ≡ verdict o
unfolding poll_rounds
poll_rounds_final rounds reply k none e h = ground (arith, e)
poll_rounds_final rounds reply k (some status) e h = ground (arith, e)

poll_rounds-verdict :
    (rounds n : ℕ) (reply : ℕ → Option String) (k : ℕ)
    → n < rounds
    → ((i : ℕ) → i < n → Waits (reply (i + k)))
    → verdict (reply (n + k)) ≢ timed_out
    → poll_rounds rounds reply k ≡ verdict (reply (n + k))
poll_rounds-verdict zero n reply k h w f = absurd (omega arith)
poll_rounds-verdict (suc rounds) zero reply k h w f =
    poll_rounds_final rounds reply k (reply (zero + k)) (ap reply (omega arith)) f
poll_rounds-verdict (suc rounds) (suc n) reply k h w f =
    let at : n + suc k ≡ suc n + k = omega arith in
    let first : zero + k ≡ k = omega arith in
    poll_rounds_wait rounds reply k (reply k) refl
      (subst (λ j. Waits (reply j)) first (w zero (omega arith)))
    ∙ poll_rounds-verdict rounds n reply (suc k) (omega arith)
        (λ i l. subst (λ j. Waits (reply j)) (shift i k) (w (suc i) (omega arith)))
        (subst (λ j. verdict (reply j) ≢ timed_out) (back n k) f)
    ∙ ap (λ j. verdict (reply j)) at
  where
    shift : (i k : ℕ) → suc i + k ≡ i + suc k
    shift i k = omega arith

    back : (i k : ℕ) → suc i + k ≡ i + suc k
    back i k = omega arith

-- If each of the first `n` answers says that the job is at work, and the next one, within the ninety
-- rounds, is final or an error, then the polling ends with what that one says.
pub poll_status-verdict :
    (n : ℕ) (reply : ℕ → Option String)
    → n < 90
    → ((i : ℕ) → i < n → Waits (reply i))
    → verdict (reply n) ≢ timed_out
    → poll_status reply ≡ verdict (reply n)
unfolding poll_status
poll_status-verdict n reply h w f =
    let at : n + zero ≡ n = omega arith in
    poll_rounds-verdict 90 n reply zero h
      (λ i l. subst (λ j. Waits (reply j)) (plus_zero i) (w i l))
      (subst (λ j. verdict (reply j) ≢ timed_out) (plus_zero n) f)
    ∙ ap (λ j. verdict (reply j)) at
  where
    plus_zero : (i : ℕ) → i ≡ i + zero
    plus_zero i = omega arith
