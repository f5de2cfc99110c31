-- ===== src/Treiber/Abstract.antt =====
-- What client/od_client.c's Treiber stacks promise: lists of keys, and what each session has to
-- itself.
use odyssey_lib.Base.{
  at_update, update, update_other, update_same, List, Option, ap, none, refl, some, ℕ, ◌∷◌, ◌≡◌,
  ◌≢◌,
}
use odyssey_lib.Treiber.Run.{Clients, Sess}
use odyssey_lib.Treiber.Stages.{hold}

pub record Stacks : Type 0 where
  pub stacks : ℕ → List ℕ
  pub hands : ℕ → Option ℕ

-- One session pushes the key that it has to the front of one stack, or takes the first key of one
-- stack, or nothing changes.
pub data StackMove (a b : Stacks) : Type 0 where
  no_move : ((k : ℕ) → b.stacks k ≡ a.stacks k) → ((j : ℕ) → b.hands j ≡ a.hands j) → StackMove a b
  push_move :
      (i k key : ℕ)
      → a.hands i ≡ some key
      → b.hands i ≡ none
      → b.stacks k ≡ key ∷ a.stacks k
      → ((j : ℕ) → i ≢ j → b.hands j ≡ a.hands j)
      → ((l : ℕ) → k ≢ l → b.stacks l ≡ a.stacks l)
      → StackMove a b
  pop_move :
      (i k key : ℕ)
      → a.hands i ≡ none
      → b.hands i ≡ some key
      → a.stacks k ≡ key ∷ b.stacks k
      → ((j : ℕ) → i ≢ j → b.hands j ≡ a.hands j)
      → ((l : ℕ) → k ≢ l → b.stacks l ≡ a.stacks l)
      → StackMove a b

abbrev pub view : (ℕ → List ℕ) → Clients → Stacks
view chain s = record { stacks = chain; hands = λ i. hold (s.sess i).info }

pub hands_update :
    (s : Clients) (i : ℕ) (e : Sess)
    → hold e.info ≡ hold (s.sess i).info
    → (j : ℕ) → hold (update s.sess i e j).info ≡ hold (s.sess j).info
hands_update s i e same =
    at_update (λ j u. hold u.info ≡ hold (s.sess j).info) s.sess i e same (λ j _. refl)

pub hands_other :
    (s : Clients) (i : ℕ) (e : Sess) (j : ℕ)
    → i ≢ j
    → hold (update s.sess i e j).info ≡ hold (s.sess j).info
hands_other s i e j ne = ap (λ u. hold u.info) (update_other s.sess i j e ne)

pub hands_self : (s : Clients) (i : ℕ) (e : Sess) → hold (update s.sess i e i).info ≡ hold e.info
hands_self s i e = ap (λ u. hold u.info) (update_same s.sess i e)
