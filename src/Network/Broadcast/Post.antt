-- ===== src/Network/Broadcast/Post.antt =====
-- Posting a batch of broadcasts, and the receives for what they bring back.
use native.Mathlib.Nat.{mod-lt}
use odyssey_lib.Base.{
  Bool, Bool-cases, List, [], ap, arith, assert_if, assert_if-true, inl, inr, ltb, ltb→lt, lt→ltb,
  refl, some, subst, sym, true, u32, ℕ, ◌%◌, ◌+◌, ◌-◌, ◌<◌, ◌==◌, ◌^◌, ◌≡◌, ◌≤◌,
}
use odyssey_lib.Fifo.{Fifo}
use odyssey_lib.Network.{RecvInfo, Sge, Verb}
use odyssey_lib.Network.Broadcast.{post_batch}
use odyssey_lib.Network.Links.{
  BcastQp, bcast_signals, flag_the_first_bcast_message_signaled, form_bcast_links,
  get_first_message_of_next_bcast, get_last_message_of_bcast,
  last_mes_of_bcast_point_to_frst_mes_of_next_bcast, post_quorum_broadasts_and_recvs,
}
use odyssey_lib.Network.Receives.{IsRing, post_recvs_with_recv_info-posts}
use odyssey_lib.Quorum.{QuorumInfo}

abbrev pub erased : QuorumInfo → QuorumInfo
erased q = record q { send_wrs = [] }

-- what forming and posting work requests leaves alone
abbrev pub Setting : Type 0
Setting = QuorumInfo × ℕ × ℕ × ℕ

abbrev pub setting : BcastQp → Setting
setting c = (erased c.q_info, c.b, c.recv_wr_num, c.ss_batch)

abbrev pub Outer : Type 0
Outer = Setting × Fifo × RecvInfo × (ℕ → Sge)

abbrev pub outer : BcastQp → Outer
outer c = (setting c, c.send_fifo, c.recv_info, c.sgl)

-- receives can be posted, and there is a batch size for signals
pub record CanPost (c : BcastQp) : Type 0 where
  pub ring : IsRing c.recv_info
  pub within : c.recv_info.posted_recvs ≤ c.recv_wr_num
  pub few : c.recv_wr_num < 2 ^ 16
  pub signals : 0 < c.ss_batch

pub CanPost-same :
    {c d : BcastQp} → d.recv_info ≡ c.recv_info → setting d ≡ setting c → CanPost c → CanPost d
CanPost-same {c} {d} info around p = record {
  ring = subst IsRing (sym info) p.ring;
  within = rw (info, ap (λ (o : Setting). o.2) around) p.within;
  few = rw (ap (λ (o : Setting). o.2) around) p.few;
  signals = rw (ap (λ (o : Setting). o.3) around) p.signals;
}

module _ (assertions enable_multicast : Bool) where
  pub form_bcast_links-outer :
      (br_i : ℕ) (c : BcastQp)
      → 0 < c.ss_batch
      → (c' : BcastQp) × (v : List Verb) × (form_bcast_links assertions enable_multicast br_i c
          ≡ some (c', v))
        × (outer c' ≡ outer c)
  unfolding form_bcast_links bcast_signals flag_the_first_bcast_message_signaled
      last_mes_of_bcast_point_to_frst_mes_of_next_bcast get_last_message_of_bcast
      get_first_message_of_next_bcast
  form_bcast_links-outer br_i c ss =
      let passes : assert_if assertions true ≡ some tt = assert_if-true assertions refl in
      let some_ss = assert_if-true assertions (lt→ltb 0 c.ss_batch ss) in
      elim (Bool-cases (c.sent_tx % c.ss_batch == 0)) [
        | inl flag ↦ elim (Bool-cases (ltb 0 br_i)) [
          | inl later ↦ rw (some_ss, flag, later, passes) (_, _, refl, refl)
          | inr first ↦ rw (some_ss, flag, first) (_, _, refl, refl)
        ]
        | inr plain ↦ elim (Bool-cases (ltb 0 br_i)) [
          | inl later ↦ rw (some_ss, plain, later, passes) (_, _, refl, refl)
          | inr first ↦ rw (some_ss, plain, first) (_, _, refl, refl)
        ]
      ]

  pub post_batch-CanPost :
      (machine_id br_i : ℕ) (c : BcastQp)
      → CanPost c
      → 0 < br_i
      → (c' : BcastQp) × (v : List Verb) × (post_batch machine_id assertions enable_multicast br_i c
          ≡ some (c', v))
        × CanPost c'
        × (setting c' ≡ setting c)
        × (c'.send_fifo ≡ c.send_fifo)
  unfolding post_quorum_broadasts_and_recvs get_last_message_of_bcast
  post_batch-CanPost machine_id br_i c p some_br =
      let n = c.recv_wr_num - c.recv_info.posted_recvs in
      let count : u32 (c.recv_wr_num + 2 ^ 32 - c.recv_info.posted_recvs) ≡ n =
        omega (arith, p.within, p.few) in
      let br = assert_if-true assertions (lt→ltb 0 br_i some_br) in
      elim (Bool-cases (ltb 0 n)) [
        | inl some_recvs ↦
            let (recv_wr, posts, chain) =
              post_recvs_with_recv_info-posts c.recv_info p.ring assertions n (omega (arith, p.few))
                (ltb→lt 0 n some_recvs) (omega (arith, p.within, p.few)) in
            rw (count, some_recvs, posts, br)
              (
                _,
                _,
                refl,
                record {
                  ring = record {
                    inside = mod-lt (c.recv_info.push_ptr + n) (omega (arith, p.ring.inside));
                    small = p.ring.small;
                    few = p.ring.few;
                  };
                  within = omega (arith, p.within);
                  few = p.few;
                  signals = p.signals;
                },
                refl,
                refl,
              )
        | inr no_recvs ↦
            rw (count, no_recvs, br)
              (
                _,
                _,
                refl,
                record { ring = p.ring; within = p.within; few = p.few; signals = p.signals },
                refl,
                refl,
              )
      ]
