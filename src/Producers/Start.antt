-- ===== src/Producers/Start.antt =====
-- The sessions of client/od_client.c's producer-consumer ring as `pc_multi_session` sets them up.
use odyssey_lib.Base.{
  ==→eq, Bool, Bool-cases, [], ap, arith, false, inl, inr, refl, sym, true, true-ne_false, u16, u32,
  ℕ, ◌%◌, ◌*◌, ◌+◌, ◌/◌, ◌<◌, ◌==◌, ◌∙◌, ◌≡◌, ◌≤◌,
}
use odyssey_lib.Config.{kvs_num_keys, sessions_per_machine}
use odyssey_lib.Producers.{
  PcSess, from_session, init_pc_sess, pc_init_flags, pc_writes_num, writes_from,
}
use odyssey_lib.Producers.Invariant.{HasTurn, Near, Orderly}
use odyssey_lib.Producers.Run.{PcClient, pc_initial, pc_start_of, zero_pc_store}
use odyssey_lib.Producers.Stages.{AsksFor, InRing, resting, starting}
use odyssey_lib.Treiber.{global_session_num}

glob_start :
    (g : ℕ)
    → g < global_session_num
    → u16 (sessions_per_machine * (g / sessions_per_machine) + g % sessions_per_machine) ≡ g
glob_start g lt = omega (arith, lt)

start-InRing :
    (k0 g : ℕ)
    → k0 + global_session_num * (pc_writes_num + 1) ≤ kvs_num_keys
    → g < global_session_num
    → InRing k0 g 0 (init_pc_sess k0 (g / sessions_per_machine) (g % sessions_per_machine))
unfolding init_pc_sess
start-InRing k0 g keys lt =
    let e = glob_start g lt in
    let from : from_session g < global_session_num = omega arith in
    record {
      placed = record {
        real = omega arith;
        glob = e;
        before = ap from_session e;
        acquires = ap (λ h. u32 (k0 + from_session h)) e ∙ omega (arith, keys, from);
        releases = ap (λ h. u32 (k0 + h)) e ∙ omega (arith, keys, lt);
        writes =
            ap (λ h. u32 (k0 + global_session_num + h * pc_writes_num)) e ∙ omega (arith, keys, lt);
        reads =
            ap (λ h. u32 (k0 + global_session_num + from_session h * pc_writes_num)) e
            ∙ omega (arith, keys, from);
      };
      counted = record {
        owner = e;
        written = refl;
        flag = refl;
        few = omega arith;
        few_acq = omega arith;
      };
      unasked = λ _. (refl, refl);
    }

flags-InRing : (k0 g : ℕ) (x : PcSess) → InRing k0 g 0 x → InRing k0 g 0 (pc_init_flags k0 x).0
unfolding pc_init_flags
flags-InRing k0 g x r = record {
  placed = r.placed;
  counted = record {
    owner = r.placed.glob;
    written = refl;
    flag = refl;
    few = omega arith;
    few_acq = r.counted.few_acq;
  };
  unasked = r.unasked;
}

abbrev pub on_first : ℕ → Bool
on_first g = g / sessions_per_machine == 0

-- What holds of both kinds of start holds of each session.
started :
    (k0 : ℕ) (P : Bool → PcClient → Type 0) (g : ℕ)
    → let x = init_pc_sess k0 (g / sessions_per_machine) (g % sessions_per_machine) in
      P true (record { info = (pc_init_flags k0 x).0; queue = (pc_init_flags k0 x).1 })
      → P false (record { info = x; queue = [] })
      → P (on_first g) ((pc_initial k0).sess g)
unfolding pc_initial pc_start_of
started k0 P g a b = elim (Bool-cases (g / sessions_per_machine == 0)) [
  | inl yes_first ↦ rw yes_first a
  | inr not_first ↦ rw not_first b
]

acq_start : (k0 g : ℕ) → ((pc_initial k0).sess g).info.acq_num ≡ 0
unfolding init_pc_sess pc_init_flags
acq_start k0 g = started k0 (λ w c. c.info.acq_num ≡ 0) g refl refl

turn_start :
    (k0 g : ℕ)
    → HasTurn k0 (pc_initial k0).store g (on_first g) ((pc_initial k0).sess g).info
    → g / sessions_per_machine ≡ 0
unfolding pc_initial
turn_start k0 g (inl w) = ==→eq (g / sessions_per_machine) 0 w
turn_start k0 g (inr less) = absurd (omega arith)

pub initial-Orderly :
    (k0 : ℕ)
    → k0 + global_session_num * (pc_writes_num + 1) ≤ kvs_num_keys
    → Orderly k0 on_first (pc_initial k0)
unfolding pc_initial init_pc_sess pc_init_flags
initial-Orderly k0 keys = record {
  regular = λ g lt.
      let r = start-InRing k0 g keys lt in
      started k0 (λ w c. InRing k0 g 0 c.info) g (flags-InRing k0 g _ r) r;
  queued = λ g lt.
      started k0 (λ w c. AsksFor zero_pc_store c.info c.queue w) g
        (record {
          round =
              writes_from
                (pc_init_flags k0
                  (init_pc_sess k0 (g / sessions_per_machine) (g % sessions_per_machine))).0
                pc_writes_num 0;
          tail = false;
          shape = refl;
          tried = λ e. absurd (true-ne_false (sym e));
          stage = starting pc_writes_num 0 refl refl refl refl (λ j lj. absurd (omega (arith, lj)));
        })
        (record {
          round = [];
          tail = false;
          shape = refl;
          tried = λ e. absurd (true-ne_false (sym e));
          stage =
              resting refl refl (λ pos. absurd (omega (arith, pos)))
                (λ pos. absurd (omega (arith, pos)));
        });
  near = λ g lt.
      started k0 (λ w c. Near k0 zero_pc_store g w c.info) g
        (record {
          lag = refl;
          low = omega arith;
          high = omega arith;
          begun_round = λ _. refl;
          seen = omega arith;
        })
        (record {
          lag = refl;
          low = omega arith;
          high = omega arith;
          begun_round = λ _. refl;
          seen = omega arith;
        });
  one = λ g h lg lh same t t'. omega (arith, lg, lh, same, turn_start k0 g t, turn_start k0 h t');
}

pub asked_start : (k0 g : ℕ) → ((pc_initial k0).sess g).info.asked ≡ false
unfolding init_pc_sess pc_init_flags
asked_start k0 g = started k0 (λ w c. c.info.asked ≡ false) g refl refl
