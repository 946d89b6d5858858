-- ===== src/Service/Scan/Pages.antt =====
-- The keys of a page, and pages that follow on one another.
use fast_kv_a_lightweight_ke.Base.{
  ℕ, zero, suc, ◌+◌, ◌-◌, ◌≤◌, ◌<◌, ◌≡◌, refl, sym, ap, ap₂, ◌∙◌, true, not, List, [], ◌++◌,
  append_assoc, append-nil, if◌then◌else◌, arith, Bool-cases, inl, inr, ◌==◌,
}
use fast_kv_a_lightweight_ke.Base.Bytes.{Bytes, bytes_key}
use fast_kv_a_lightweight_ke.Base.Dict.{RangeOrder}
use fast_kv_a_lightweight_ke.Base.Words.{Int64, add64, less64, positive64}
use fast_kv_a_lightweight_ke.Storage.Hash.{shard_count}
use fast_kv_a_lightweight_ke.Storage.Memory.{Shards, scan_shard}
use fast_kv_a_lightweight_ke.Service.Scan.{Page, goes_on, scan_loop, rounds, scan_keys}
use native.Mathlib.Nat.{add-zero}
use fast_kv_a_lightweight_ke.Service.Scan.Rounds.{scan_loop-on, scan_loop-off}

module _ (order : RangeOrder Bytes Bytes) (now : Int64) (shards : Shards) (bucket : Bytes) where
  -- The keys of the shards from `i` on.
  unfoldable pub scan_range : ℕ → ℕ → List Bytes
  scan_range zero i = []
  scan_range (suc n) i = scan_shard order now shards bucket i ++ scan_range n (i + 1)

  add64-small : (i : ℕ) → i < 256 → add64 i 1 ≡ i + 1
  unfolding add64
  add64-small i h = omega arith

  no_more :
      (keys : List Bytes) (i : ℕ) (page : Page) → page ≡ (keys, i) → page ≡ (keys ++ [], i + 0)
  no_more keys i page same =
      same ∙ ap₂ (λ (k : List Bytes) (j : ℕ). (k, j)) (sym (append-nil keys)) (sym (add-zero i))

  -- From the shard `i` on, the loop reads some shards whole, and each once.
  scan_loop_lem :
      (fuel : ℕ) (count : Int64) (keys : List Bytes) (i : ℕ)
      → fuel + i ≡ 256
      → (n : ℕ) × (n ≤ fuel)
        × (scan_loop order now shards bucket fuel count (keys, i) ≡ (keys ++ scan_range n i, i + n))
  unfolding scan_range
  scan_loop_lem zero count keys i left =
      (0, omega arith, no_more keys i _ (unfold scan_loop in refl))
  scan_loop_lem (suc fuel) count keys i left =
      elim (Bool-cases (goes_on order now shards bucket count (keys, i))) [
        | inl on ↦
            let (n, fits, same) =
              scan_loop_lem fuel count (keys ++ scan_shard order now shards bucket i) (i + 1)
                (omega arith) in
            (
              suc n,
              omega arith,
              scan_loop-on order now shards bucket fuel count (keys, i) on
                  ∙ ap
                      (λ j.
                        scan_loop order now shards bucket fuel count
                          (keys ++ scan_shard order now shards bucket i, j))
                      (add64-small i (omega arith))
                  ∙ same
                  ∙ ap₂ (λ (k : List Bytes) (j : ℕ). (k, j))
                      (append_assoc keys (scan_shard order now shards bucket i)
                        (scan_range n (i + 1)))
                      (omega arith),
            )
        | inr off ↦ (
          0,
          omega arith,
          no_more keys i _ (scan_loop-off order now shards bucket (suc fuel) count (keys, i) off),
        )
      ]

  -- The first shard is read whatever the count is.
  goes_on-first :
      (cursor : ℕ) (count : Int64)
      → cursor < 256
      → goes_on order now shards bucket (if positive64 count then count else 10) ([], cursor) ≡ true
  unfolding goes_on less64 positive64
  goes_on-first cursor count h = ground arith

  rounds-small :
      (cursor : ℕ) → cursor < 256 → rounds order now shards bucket cursor ≡ suc (255 - cursor)
  rounds-small cursor h = omega arith

  close_page :
      (page : Page) (keys : List Bytes) (end : ℕ)
      → page ≡ (keys, end)
      → end ≤ 256
      → (if not (less64 page.1 shard_count) then (page.0, 0) else page)
        ≡ (keys, if end == 256 then 0 else end)
  unfolding less64
  close_page page keys end same inside = ground (arith, same)

  first_page :
      (cursor : ℕ) (count : Int64)
      → cursor < 256
      → (n : ℕ) × (n ≤ 255 - cursor)
        × (scan_loop order now shards bucket
              (rounds order now shards bucket cursor)
              (if positive64 count then count else 10)
              ([], cursor)
            ≡ (scan_range (suc n) cursor, cursor + suc n))
  unfolding scan_range
  first_page cursor count h =
      let enough : Int64 = if positive64 count then count else 10 in
      let keys : List Bytes = scan_shard order now shards bucket cursor in
      let (n, fits, same) = scan_loop_lem (255 - cursor) enough keys (cursor + 1) (omega arith) in
      (
        n,
        fits,
        ap (λ fuel. scan_loop order now shards bucket fuel enough ([], cursor))
              (rounds-small cursor h)
            ∙ scan_loop-on order now shards bucket (255 - cursor) enough ([], cursor)
                (goes_on-first cursor count h)
            ∙ ap (λ j. scan_loop order now shards bucket (255 - cursor) enough (keys, j))
                (add64-small cursor h)
            ∙ same
            ∙ ap (λ (j : ℕ). (keys ++ scan_range n (cursor + 1), j)) (omega arith),
      )

  -- The keys of a page are those of some shards from the cursor on, one at least, and the next
  -- cursor is behind them; it is 0 behind the last shard.
  pub scan_keys_lem :
      (cursor : ℕ) (count : Int64)
      → cursor < 256
      → (n : ℕ) × (1 ≤ n)
        × (cursor + n ≤ 256)
        × (scan_keys order now shards bucket cursor count
            ≡ (scan_range n cursor, if cursor + n == 256 then 0 else cursor + n))
  unfolding scan_keys
  scan_keys_lem cursor count h =
      let (n, fits, page) = first_page cursor count h in
      (suc n, omega arith, omega arith, close_page _ _ (cursor + suc n) page (omega arith))

-- A client's scan: pages from a cursor on until the cursor is 0 again, each with its own clock and its
-- own count.
unfoldable pub scan_pages :
    RangeOrder Bytes Bytes
    → (Int64 → Int64)
    → Shards
    → Bytes
    → ℕ
    → (Int64 → Int64)
    → Int64
    → List Bytes
scan_pages order clock shards bucket zero count cursor = []
scan_pages order clock shards bucket (suc fuel) count cursor =
    let page : Page = scan_keys order (clock cursor) shards bucket cursor (count cursor) in
    let rest : List Bytes = scan_pages order clock shards bucket fuel count page.1 in
    if page.1 == 0 then page.0 else page.0 ++ rest
