-- ===== src/Treiber/Invariant.antt =====
-- Which keys of client/od_client.c's Treiber stacks are on which stack, and which session has which
-- key to itself.
pub mod Quiet
pub mod Reads
pub mod Writes
pub mod Change
pub mod Pushed
pub mod Popped
use odyssey_lib.Base.{
  Bool, List, Option, ap, arith, eq→==, false, length, none, refl, some, subst, sym, true, ℕ,
  ℕ_discrete, ◌&&◌, ◌+◌, ◌<◌, ◌==◌, ◌∙◌, ◌≡◌, ◌≢◌, ◌≤◌,
}
use odyssey_lib.Treiber.{SessInfo, global_session_num, number_of_stacks, tr_key_offset}
use odyssey_lib.Treiber.Chain.{Chain, Chain-empty, Chain-first, has}
use odyssey_lib.Treiber.Count.{count, count-positive}
use odyssey_lib.Treiber.Progress.{Fixed}
use odyssey_lib.Treiber.Run.{Clients}
use odyssey_lib.Treiber.Stages.{Fit, Stage, hold}

pub data Place : Type 0 where
  nowhere : Place
  with_session : ℕ → Place
  on_stack : ℕ → Place

abbrev pub owing : Option ℕ → Bool
owing none = true
owing (some _) = false

-- whether the session has a node on the stack that it has not popped yet
abbrev pub owes : ℕ → SessInfo → Bool
owes k x = owing (hold x) && (x.stack_id == k)

-- The stacks are the lists `chain`: the top of each leads through its nodes, as many as were pushed
-- and not popped, as many as there are sessions that have to pop from it; a node is on one stack or
-- with one session.
pub record Stacked (chain : ℕ → List ℕ) (s : Clients) : Type 0 where
  pub place : ℕ → Place
  pub linked : (k : ℕ) → Chain s.store.nodes (s.store.tops k).key_id (chain k)
  pub sized :
      (k : ℕ) → length (chain k) + (s.store.tops k).pop_counter ≡ (s.store.tops k).push_counter
  pub bounded : (k : ℕ) → (s.store.tops k).push_counter ≤ s.store.changes
  pub located : (k key : ℕ) → has key (chain k) ≡ true → place key ≡ on_stack k
  pub held :
      (i key : ℕ)
      → i < global_session_num
      → hold (s.sess i).info ≡ some key
      → place key ≡ with_session i
  pub owed : (k : ℕ) → length (chain k) ≡ count (λ i. owes k (s.sess i).info) global_session_num
  pub stages : (i : ℕ) → i < global_session_num → Stage s.store (s.sess i).info (s.sess i).queue
  pub fixed : (i : ℕ) → i < global_session_num → Fixed (s.sess i).info
  pub counters : (c : ℕ) → s.stack_id_cntr c < number_of_stacks

pub with-ne-on : {i k : ℕ} → with_session i ≢ on_stack k
with-ne-on e = cc

with_session_injective : {i j : ℕ} → with_session i ≡ with_session j → i ≡ j
with_session_injective e = cc

pub on_stack_injective : {i j : ℕ} → on_stack i ≡ on_stack j → i ≡ j
on_stack_injective e = cc

module _ {chain : ℕ → List ℕ} {s : Clients} (inv : Stacked chain s) where
  -- The top of each stack fits its list.
  pub Stacked-Fit : (k : ℕ) → Fit s.store.changes (s.store.tops k)
  Stacked-Fit k =
      let size = inv.sized k in
      record {
        pops = omega (arith, size);
        pushes = inv.bounded k;
        when_empty = λ e.
            Chain-empty s.store.nodes (s.store.tops k).key_id (chain k) (inv.linked k)
              (omega (arith, size, e));
        when_full = λ lt.
            let f =
              Chain-first s.store.nodes (s.store.tops k).key_id (chain k) (inv.linked k)
                (omega (arith, size, lt)) in
            (f.0, f.1);
      }

  -- A session that has to pop finds a node on its stack.
  pub Stacked-nonempty :
      (i : ℕ)
      → i < global_session_num
      → hold (s.sess i).info ≡ none
      → tr_key_offset ≤ (s.store.tops (s.sess i).info.stack_id).key_id
  Stacked-nonempty i lt h =
      let k = (s.sess i).info.stack_id in
      let mine : owes k (s.sess i).info ≡ true = rw h (eq→== k k refl) in
      let some_node : 0 < count (λ j. owes k (s.sess j).info) global_session_num =
        count-positive (λ j. owes k (s.sess j).info) global_session_num i lt mine in
      (Chain-first s.store.nodes (s.store.tops k).key_id (chain k) (inv.linked k)
        (omega (arith, inv.owed k, some_node))).0

  pub held-ne-located :
      (i k key key' : ℕ)
      → i < global_session_num
      → hold (s.sess i).info ≡ some key
      → has key' (chain k) ≡ true
      → key ≢ key'
  held-ne-located i k key key' lt h on e =
      absurd (with-ne-on (sym (inv.held i key lt h) ∙ ap inv.place e ∙ inv.located k key' on))

  pub held-ne-held :
      (i j key key' : ℕ)
      → i < global_session_num
      → j < global_session_num
      → i ≢ j
      → hold (s.sess i).info ≡ some key
      → hold (s.sess j).info ≡ some key'
      → key ≢ key'
  held-ne-held i j key key' lt lt' ne h h' e =
      ne (
        with_session_injective
          (sym (inv.held i key lt h) ∙ ap inv.place e ∙ inv.held j key' lt' h'))
