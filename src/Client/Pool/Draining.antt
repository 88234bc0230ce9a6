-- ===== src/Client/Pool/Draining.antt =====
-- The count of the calls in flight, the labels of the metrics, and the shutdown.
use nodejs_basics.Prelude.{
  ℕ, zero, suc, ◌+◌, ◌-◌, ◌*◌, ◌≤◌, ◌<◌, ◌≡◌, ◌⊎◌, inl, inr, arith, leb, ◌==◌, ==_iff, string_key,
  Bool-cases,
}
use nodejs_basics.Client.Pool.{wait_for, poll_from}

poll_from_lem :
    (counts : ℕ → ℕ) (timeout_ms left look : ℕ)
    → 1 ≤ look
    → timeout_ms ≤ 50 * (look + left)
    → let last = poll_from counts timeout_ms left look in
      (look ≤ last)
      × ((counts last ≡ 0) ⊎ (timeout_ms ≤ 50 * last))
      × ((i : ℕ) → look ≤ i → i < last → (1 ≤ counts i) × (50 * i < timeout_ms))
poll_from_lem counts timeout_ms zero look h t =
    (omega arith, inr (omega arith), λ i a b. absurd (omega arith))
poll_from_lem counts timeout_ms (suc left) look h t =
    let (from, ended, before) =
      poll_from_lem counts timeout_ms left (look + 1) (omega arith) (omega arith) in
    elim (Bool-cases (counts look == 0)) [
      | inl empty ↦
          rw empty
            (omega arith, inl ((==_iff (counts look) 0).0 empty), λ i a b. absurd (omega arith))
      | inr busy ↦ elim (Bool-cases (leb timeout_ms (50 * look))) [
        | inl over ↦
            rw (busy, over) (omega arith, inr (ground (arith, over)), λ i a b. absurd (omega arith))
        | inr going ↦
            rw (busy, going)
              (
                omega (arith, from),
                ended,
                λ i a b. elim (Bool-cases (i == look)) [
                  | inl same ↦
                      let now : i ≡ look = (==_iff i look).0 same in
                      rw now (ground (arith, busy), ground (arith, going))
                  | inr later ↦ before i (ground (arith, later)) b
                ],
              )
      ]
    ]

-- The wait of a shutdown ends: with the first look at which no call is in flight, or else with the
-- first one after the beginning at which the time is over. It lasts less than 50 ms longer than the
-- timeout, or 50 ms where the timeout is 0.
pub wait_for_ends :
    (counts : ℕ → ℕ) (timeout_ms : ℕ)
    → let last = wait_for counts timeout_ms in
      ((counts last ≡ 0) ⊎ ((1 ≤ last) × (timeout_ms ≤ 50 * last)))
      × ((i : ℕ) → i < last → 1 ≤ counts i)
      × ((last ≤ 1) ⊎ (50 * last < timeout_ms + 50))
unfolding wait_for
wait_for_ends counts timeout_ms =
    let (from, ended, before) =
      poll_from_lem counts timeout_ms timeout_ms 1 (omega arith) (omega arith) in
    let last = poll_from counts timeout_ms timeout_ms 1 in
    elim (Bool-cases (counts 0 == 0)) [
      | inl empty ↦
          rw empty
            (inl ((==_iff (counts 0) 0).0 empty), λ i b. absurd (omega arith), inl (omega arith))
      | inr busy ↦ rw busy (
        elim ended [ inl none_left ↦ inl none_left | inr over ↦ inr (from, over) ],
        λ i b. elim (Bool-cases (i == 0)) [
          | inl first ↦ let now : i ≡ 0 = (==_iff i 0).0 first in rw now (ground (arith, busy))
          | inr later ↦ (before i (ground (arith, later)) b).0
        ],
        elim (Bool-cases (leb last 1)) [
          | inl soon ↦ inl (ground (arith, soon))
          | inr late ↦ inr (
              let (a, b) = before (last - 1) (ground (arith, late)) (ground (arith, late)) in
              ground (arith, b, late))
        ],
      )
    ]
