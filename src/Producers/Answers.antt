-- ===== src/Producers/Answers.antt =====
-- The first request of a session of client/od_client.c's producer-consumer ring, wherever it stands.
use odyssey_lib.Base.{
  update, Bool, List, [], ap, arith, cons-head, cons-tail, false, nil-ne_cons, refl, subst, suc,
  sym, true, true-ne_false, zero, ℕ, ◌++◌, ◌+◌, ◌<◌, ◌∙◌, ◌∷◌, ◌≡◌,
}
use odyssey_lib.Network.Receives.{moved}
use odyssey_lib.Producers.{
  PcOp, PcSess, acquire_flag, parts_from, pc_try_to_acquire, pc_writes_num, read_flag, read_part,
  release_flag, write_part, writes_from,
}
use odyssey_lib.Producers.Invariant.{Orderly}
use odyssey_lib.Producers.Releases.{release-Orderly}
use odyssey_lib.Producers.Run.{Ring, pc_answered, pc_perform}
use odyssey_lib.Producers.Serving.{
  Carried, Written-more, flag-Orderly, handed, part-Orderly, write-Orderly,
}
use odyssey_lib.Producers.Stages.{
  AsksFor, HasRead, PcStage, PcStage-frame, Written, acquiring, asks, reading, resting, starting,
  writing_part,
}
use odyssey_lib.Treiber.{global_session_num}

module _ {k0 : ℕ} {works : ℕ → Bool} {s : Ring} (inv : Orderly k0 works s) (g : ℕ)
    (lt : g < global_session_num) where
  abbrev x : PcSess
  x = (s.sess g).info

  abbrev x_queue : List PcOp
  x_queue = (s.sess g).queue

  abbrev Serves : PcOp → List PcOp → Type 0
  Serves r q = Carried k0 (pc_answered s g (pc_perform r s.store x) q)

  front :
      {r r' : PcOp} {q q' : List PcOp}
      → x_queue ≡ r ∷ q
      → x_queue ≡ r' ∷ q'
      → Serves r q
      → Serves r' q'
  front {r = r} {q' = q'} e h moved =
      subst (λ u. Serves u q') (cons-head (sym e ∙ h))
        (subst (Serves r) (cons-tail (sym e ∙ h)) moved)

  Tried : Bool → Type 0
  Tried tail = tail ≡ true → (x.state ≡ pc_try_to_acquire) × (x.asked ≡ true)

  -- The last request, the read of the flag
  Serves-asks :
      Tried true
      → (0 < x.rel_num → Written s.store x pc_writes_num)
      → (0 < x.acq_num → HasRead x)
      → works g ≡ false
      → Serves (read_flag x.flag_to_acquire) []
  unfolding pc_perform Tried
  Serves-asks tried d r rest = (
    _,
    flag-Orderly inv g lt [] (λ e. absurd (true-ne_false (sym (tried refl).1 ∙ e)))
        (record {
          round = [];
          tail = false;
          shape = refl;
          tried = λ e. absurd (true-ne_false (sym e));
          stage = resting rest refl d r;
        }),
  )

  Serves-acquire :
      (tail : Bool)
      → Tried tail
      → works g ≡ true
      → 0 < x.acq_num
      → Serves (acquire_flag x.flag_to_acquire) (parts_from x pc_writes_num 0 ++ asks x tail)
  unfolding pc_perform Tried
  Serves-acquire tail tried w pos = (
    _,
    flag-Orderly inv g lt (parts_from x pc_writes_num 0 ++ asks x tail) (λ _. pos)
        (record {
          round = parts_from x pc_writes_num 0;
          tail = tail;
          shape = refl;
          tried = tried;
          stage =
              reading 5 0 w refl refl pos (λ j lj. absurd (omega (arith, lj)))
                (λ h. absurd (omega (arith, h)));
        }),
  )

  Serves-read :
      (n i : ℕ) (tail : Bool)
      → Tried tail
      → works g ≡ true
      → suc n + i ≡ pc_writes_num
      → 0 < x.acq_num
      → Written s.store x i
      → Serves
          (read_part (x.r_key + i))
          (write_part (x.w_key + i) x.node_to_write ∷ parts_from x n (i + 1) ++ asks x tail)
  unfolding pc_perform Tried
  Serves-read n i tail tried w five pos d = (
    _,
    part-Orderly inv g lt i
        (write_part (x.w_key + i) x.node_to_write ∷ parts_from x n (i + 1) ++ asks x tail)
        (record {
          round = write_part (x.w_key + i) x.node_to_write ∷ parts_from x n (i + 1);
          tail = tail;
          shape = refl;
          tried = tried;
          stage =
              writing_part n i w five refl pos d (handed inv g lt i (omega (arith, five)) w pos);
        }),
  )

  Serves-write :
      (n i : ℕ) (tail : Bool)
      → Tried tail
      → works g ≡ true
      → suc n + i ≡ pc_writes_num
      → 0 < x.acq_num
      → Written s.store x i
      → HasRead x
      → Serves (write_part (x.w_key + i) x.node_to_write) (parts_from x n (i + 1) ++ asks x tail)
  unfolding Tried
  Serves-write n i tail tried w five pos d r = (
    _,
    write-Orderly inv g lt i (parts_from x n (i + 1) ++ asks x tail) (omega (arith, five)) (record {
      round = parts_from x n (i + 1);
      tail = tail;
      shape = refl;
      tried = tried;
      stage =
          reading n (i + 1) w (omega (arith, five)) refl pos (Written-more inv g lt i d) (λ _. r);
    }),
  )

  Serves-start :
      (n i : ℕ) (tail : Bool)
      → Tried tail
      → works g ≡ true
      → suc n + i ≡ pc_writes_num
      → x.acq_num ≡ 0
      → Written s.store x i
      → Serves (write_part (x.w_key + i) x.node_to_write) (writes_from x n (i + 1) ++ asks x tail)
  unfolding Tried
  Serves-start n i tail tried w five none_yet d = (
    _,
    write-Orderly inv g lt i (writes_from x n (i + 1) ++ asks x tail) (omega (arith, five))
        (record {
          round = writes_from x n (i + 1);
          tail = tail;
          shape = refl;
          tried = tried;
          stage =
              starting n (i + 1) w (omega (arith, five)) refl none_yet (Written-more inv g lt i d);
        }),
  )

  Serves-release :
      (tail : Bool)
      → Tried tail
      → works g ≡ true
      → Written s.store x pc_writes_num
      → (0 < x.acq_num → HasRead x)
      → Serves (release_flag x.flag_to_release x.rel_flag) (asks x tail)
  unfolding pc_perform Tried
  Serves-release tail tried w d r =
      let reg = inv.regular g lt in
      let q : AsksFor (record s.store { flags = update s.store.flags (k0 + g) x.rel_flag }) x
          (asks x tail) false =
        record {
          round = [];
          tail = tail;
          shape = refl;
          tried = tried;
          stage = resting refl refl (λ _. d) r;
        } in
      subst
        (λ k. Carried k0 (
          pc_answered s g (record s.store { flags = update s.store.flags k x.rel_flag }, x)
            (asks x tail)))
        (sym reg.placed.releases)
        (
          _,
          release-Orderly inv g lt x.rel_flag w reg.counted.flag (asks x tail) q (λ h _ lt'.
              let u = inv.queued h lt' in
              record {
                round = u.round;
                tail = u.tail;
                shape = u.shape;
                tried = u.tried;
                stage = PcStage-frame u.stage (λ j lj. refl);
              }),
        )

  Serves-stage :
      {r : PcOp} {q b : List PcOp} (tail : Bool)
      → Tried tail
      → PcStage s.store x b (works g)
      → x_queue ≡ b ++ asks x tail
      → x_queue ≡ r ∷ q
      → Serves r q
  Serves-stage false tried (resting w e d r) shape h =
      absurd (nil-ne_cons (sym (shape ∙ ap (λ u. u ++ []) e) ∙ h))
  Serves-stage true tried (resting w e d r) shape h =
      front (shape ∙ ap (λ u. u ++ asks x true) e) h (Serves-asks tried d r w)
  Serves-stage tail tried (acquiring w e pos) shape h =
      front (shape ∙ ap (λ u. u ++ asks x tail) e) h (Serves-acquire tail tried w pos)
  Serves-stage tail tried (reading zero i w five e pos d r) shape h =
      let full : i ≡ pc_writes_num = omega (arith, five) in
      front (shape ∙ ap (λ u. u ++ asks x tail) e) h (
        Serves-release tail tried w (subst (Written s.store x) full d)
          (λ _. r (omega (arith, full))))
  Serves-stage tail tried (reading (suc n) i w five e pos d r) shape h =
      front (shape ∙ ap (λ u. u ++ asks x tail) e) h (Serves-read n i tail tried w five pos d)
  Serves-stage tail tried (writing_part n i w five e pos d r) shape h =
      front (shape ∙ ap (λ u. u ++ asks x tail) e) h (Serves-write n i tail tried w five pos d r)
  Serves-stage tail tried (starting zero i w five e none_yet d) shape h =
      let full : i ≡ pc_writes_num = omega (arith, five) in
      front (shape ∙ ap (λ u. u ++ asks x tail) e) h (
        Serves-release tail tried w (subst (Written s.store x) full d)
          (λ pos. absurd (omega (arith, pos, none_yet))))
  Serves-stage tail tried (starting (suc n) i w five e none_yet d) shape h =
      front (shape ∙ ap (λ u. u ++ asks x tail) e) h (Serves-start n i tail tried w five none_yet d)

  -- The service of a session's first request keeps the turns.
  pub Orderly-Serves : {r : PcOp} {q : List PcOp} → x_queue ≡ r ∷ q → Serves r q
  unfolding Tried
  Orderly-Serves h = let u = inv.queued g lt in Serves-stage u.tail u.tried u.stage u.shape h
