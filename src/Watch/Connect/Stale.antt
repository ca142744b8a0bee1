-- ===== src/Watch/Connect/Stale.antt =====
-- Reports that were sent before the snapshot of a connection (`status` of rust/src/watch.rs).
use hidpin.Base.{
  ℕ, ◌+◌, ◌%◌, ◌^◌, ◌<◌, ◌≡◌, false, ◌||◌, ◌==◌, leb, some, none, arith, refl, if◌then◌else◌,
}
use hidpin.Base.Bytes.{wrapping_sub16}
use hidpin.Protocol.Flags
use hidpin.Protocol.Status.{StatusReport}
use hidpin.Watch.Connect.Report.{is_stale, next_snapshot}

wrapping_sub16-add :
    (seq snapshot k : ℕ)
    → snapshot < 2 ^ 16
    → k < 2 ^ 16
    → seq ≡ (snapshot + k) % 2 ^ 16
    → wrapping_sub16 seq snapshot ≡ k
unfolding wrapping_sub16
wrapping_sub16-add seq snapshot k s h next = omega arith

-- A report that was not asked for, with a number `k` after that of the snapshot, wrapping around at
-- 65536, is stale exactly when `k` is 0 or at least 32768; the snapshot is kept as long as reports
-- are stale and forgotten with the first that is not.
pub is_stale-window :
    (report : StatusReport) (snapshot k : ℕ)
    → Flags.contains report.reason Flags.host_request ≡ false
    → snapshot < 2 ^ 16
    → k < 2 ^ 16
    → report.seq ≡ (snapshot + k) % 2 ^ 16
    → (is_stale report (some snapshot) ≡ (k == 0 || leb 0x8000 k))
      × (next_snapshot report (some snapshot)
          ≡ (if k == 0 || leb 0x8000 k then some snapshot else none))
unfolding next_snapshot is_stale
is_stale-window report snapshot k unasked s h next =
    let distance : wrapping_sub16 report.seq snapshot ≡ k =
      wrapping_sub16-add report.seq snapshot k s h next in
    rw (unasked, distance) (refl, refl)
