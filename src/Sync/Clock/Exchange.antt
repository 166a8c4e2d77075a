-- ===== src/Sync/Clock/Exchange.antt =====
-- What one exchange of probes measures.
use rsplayer.Prelude.{ℕ, ◌+◌, ◌-◌, ◌*◌, ◌≡◌, ◌≤◌, arith, Bool}
use rsplayer.Prelude.Int.{ℤ, pos, ◌+ℤ◌, ◌-ℤ◌, pos_part, neg_part, sub_ℕ, eq_of_parts}
use rsplayer.Sync.Clock.{
  ExchangeSample, offset_micros, rtt_micros, leader_to_local_micros, wrap_i64, midpoint,
}

-- An exchange at the follower's time `t1` over a link with the delays `out` and `back`: the leader's
-- clock shows the follower's time plus `ahead` less `behind`, and it answers after `busy`.
abbrev pub exchange : ℕ → ℕ → ℕ → ℕ → ℕ → ℕ → ExchangeSample
exchange t1 ahead behind out busy back = record {
  t1 = t1;
  t2 = t1 + out + ahead - behind;
  t3 = t1 + out + busy + ahead - behind;
  t4 = t1 + out + busy + back;
}

rtt_micros-exchange :
    (t1 ahead behind out busy back : ℕ)
    → behind ≤ t1 + ahead
    → t1 + ahead + behind + out + busy + back ≤ 4611686018427387904
    → rtt_micros (exchange t1 ahead behind out busy back) ≡ pos (out + back)
unfolding rtt_micros wrap_i64 ◌-ℤ◌
rtt_micros-exchange t1 ahead behind out busy back low high = ground arith

offset_micros-exchange :
    (t1 ahead behind out busy back : ℕ)
    → behind ≤ t1 + ahead
    → t1 + ahead + behind + out + busy + back ≤ 4611686018427387904
    → let z = offset_micros (exchange t1 ahead behind out busy back) in
      (2 * pos_part z + 2 * behind + back ≤ 2 * neg_part z + 2 * ahead + out + 1)
      × (2 * neg_part z + 2 * ahead + out ≤ 2 * pos_part z + 2 * behind + back + 1)
unfolding offset_micros midpoint ◌-ℤ◌ ◌+ℤ◌
offset_micros-exchange t1 ahead behind out busy back low high = (ground arith, ground arith)

sub_ℕ-parts :
    (z : ℤ) (a b : ℕ)
    → 2 * pos_part z + 2 * b ≤ 2 * neg_part z + 2 * a + 1
    → 2 * neg_part z + 2 * a ≤ 2 * pos_part z + 2 * b + 1
    → z ≡ sub_ℕ a b
sub_ℕ-parts z a b low high = eq_of_parts z (sub_ℕ a b) (ground arith)

leader_to_local-sub_ℕ :
    (t1 ahead behind later rtt : ℕ) (synced : Bool)
    → behind ≤ t1 + ahead
    → t1 + later + ahead + behind ≤ 4611686018427387904
    → leader_to_local_micros
        (record { offset = sub_ℕ ahead behind; rtt = rtt; synced = synced })
        (t1 + later + ahead - behind)
      ≡ t1 + later
unfolding leader_to_local_micros wrap_i64 ◌-ℤ◌
leader_to_local-sub_ℕ t1 ahead behind later rtt synced low far = ground arith

-- For an exchange over a link with any delays and clocks that differ by any amount, with all times
-- below 2 ^ 62: the round trip is the sum of the delays; twice the measured offset differs by at
-- most one from twice the true offset plus the difference of the delays.
pub exchange_lem :
    (t1 ahead behind out busy back : ℕ)
    → behind ≤ t1 + ahead
    → t1 + ahead + behind + out + busy + back ≤ 4611686018427387904
    → let sample = exchange t1 ahead behind out busy back in
      let z = offset_micros sample in
      (rtt_micros sample ≡ pos (out + back))
      × (2 * pos_part z + 2 * behind + back ≤ 2 * neg_part z + 2 * ahead + out + 1)
      × (2 * neg_part z + 2 * ahead + out ≤ 2 * pos_part z + 2 * behind + back + 1)
exchange_lem t1 ahead behind out busy back low high =
    let (above, below) = offset_micros-exchange t1 ahead behind out busy back low high in
    (rtt_micros-exchange t1 ahead behind out busy back low high, above, below)

-- For an exchange over a link with the same delay both ways, with all times below 2 ^ 62: the
-- measured offset is the true one, and a follower with this offset translates the leader's times
-- from there on to its own exactly.
pub symmetric_exchange_lem :
    (t1 ahead behind delay busy later : ℕ) (rtt : ℕ) (synced : Bool)
    → behind ≤ t1 + ahead
    → t1 + ahead + behind + 2 * delay + busy ≤ 4611686018427387904
    → t1 + later + ahead + behind ≤ 4611686018427387904
    → let z = offset_micros (exchange t1 ahead behind delay busy delay) in
      (z ≡ sub_ℕ ahead behind)
      × (leader_to_local_micros
            (record { offset = z; rtt = rtt; synced = synced })
            (t1 + later + ahead - behind)
          ≡ t1 + later)
symmetric_exchange_lem t1 ahead behind delay busy later rtt synced low high far =
    let (above, below) =
      offset_micros-exchange t1 ahead behind delay busy delay low (omega arith) in
    let same =
      sub_ℕ-parts (offset_micros (exchange t1 ahead behind delay busy delay)) ahead behind
        (omega arith) (omega arith) in
    (same, rw same (leader_to_local-sub_ℕ t1 ahead behind later rtt synced low far))
