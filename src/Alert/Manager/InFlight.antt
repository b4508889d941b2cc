-- ===== src/Alert/Manager/InFlight.antt =====
-- Deliveries under way and the manager's set of keys in flight.
use Prim.Native.String.{String}
use mathlib.Core.List.{Memᴰ}
use jinko_exporter.Prelude.{
  ℕ, suc, ◌+◌, ◌≡◌, refl, ap, inl, inr, Bool, true, false, List, [], ◌∷◌, arith, if◌then◌else◌,
  Bool-cases, All,
}
use jinko_exporter.Prelude.Int.{ℤ}
use jinko_exporter.Prelude.Text.{◌=$◌, =$_iff}
use jinko_exporter.Alert.Manager.{Manager, update, reserve_send, finish_send, too_soon}
use jinko_exporter.Alert.Manager.World.{Pending, remove}

-- How many deliveries of a key are under way.
unfoldable pub under_way : String → List Pending → ℕ
under_way key [] = 0
under_way key (p ∷ pending) =
    let rest = under_way key pending in if p.key =$ key then suc rest else rest

abbrev pub count_of : Bool → ℕ
count_of true = 1
count_of false = 0

-- The set of keys in flight tells what is under way.
abbrev pub AreReserved : Manager → List Pending → Type 0
AreReserved m pending = (key : String) → under_way key pending ≡ count_of (m.in_flight key)

pub =$-refl : (s : String) → (s =$ s) ≡ true
=$-refl s = (=$_iff s s).1 refl

pub under_way-remove :
    (key : String) (p : Pending) (pending : List Pending)
    → Memᴰ p pending
    → under_way key pending ≡ count_of (p.key =$ key) + under_way key (remove p.key pending)
unfolding under_way remove
under_way-remove key p [] at = elim at [ ]
under_way-remove key p (q ∷ pending) (Memᴰ.head e) = ground (
  arith,
  ap (λ (x : Pending). x.key =$ p.key) e,
  =$-refl p.key,
  ap (λ (x : Pending). x.key =$ key) e,
)
under_way-remove key p (q ∷ pending) (Memᴰ.tail at) =
    let h = under_way-remove key p pending at in
    elim (Bool-cases (q.key =$ p.key)) [
      | inl same ↦ ground (arith, h, same, ap (λ k. k =$ key) ((=$_iff q.key p.key).0 same))
      | inr other ↦ ground (arith, h, other)
    ]

pub none_under_way :
    (key : String) (pending : List Pending)
    → under_way key pending ≡ 0
    → All (λ q. (q.key =$ key) ≡ false) pending
unfolding under_way
none_under_way key [] h = tt
none_under_way key (q ∷ pending) h =
    (ground (arith, h), none_under_way key pending (ground (arith, h)))

pub All-remove :
    (P : Pending → Type 0) (key : String) (pending : List Pending)
    → All P pending
    → All P (remove key pending)
unfolding remove
All-remove P key [] all = tt
All-remove P key (q ∷ pending) (h, all) = elim (Bool-cases (q.key =$ key)) [
  | inl same ↦ rw (same, remove) all
  | inr other ↦ rw (other, remove) (h, All-remove P key pending all)
]

pub reserve_send-true :
    (m : Manager) (key : String) (cooldown : ℤ) (now : ℕ)
    → (reserve_send m key cooldown now).1 ≡ true
    → (m.in_flight key ≡ false)
      × (too_soon cooldown (m.last_sent key) now ≡ false)
      × ((reserve_send m key cooldown now).0 ≡ record m { in_flight = update m.in_flight key true })
unfolding reserve_send
reserve_send-true m key cooldown now h = ground (arith, h)

pub reserve_send-false :
    (m : Manager) (key : String) (cooldown : ℤ) (now : ℕ)
    → (reserve_send m key cooldown now).1 ≡ false
    → (reserve_send m key cooldown now).0 ≡ m
unfolding reserve_send
reserve_send-false m key cooldown now h = ground (arith, h)

pub reserved-AreReserved :
    (m : Manager) (pending : List Pending) (p : Pending)
    → m.in_flight p.key ≡ false
    → AreReserved m pending
    → AreReserved (record m { in_flight = update m.in_flight p.key true }) (p ∷ pending)
unfolding under_way update
reserved-AreReserved m pending p free all key = elim (Bool-cases (p.key =$ key)) [
  | inl same ↦ ground (arith, same, all key, free, ap m.in_flight ((=$_iff p.key key).0 same))
  | inr other ↦ ground (arith, other, all key)
]

pub finished-AreReserved :
    (m : Manager) (pending : List Pending) (p : Pending) (done : Bool) (now : ℕ)
    → Memᴰ p pending
    → AreReserved m pending
    → AreReserved (finish_send m p.key done now) (remove p.key pending)
unfolding finish_send update
finished-AreReserved m pending p done now at all key = elim (Bool-cases (p.key =$ key)) [
  | inl same ↦ ground (arith, same, all key, under_way-remove key p pending at)
  | inr other ↦ ground (arith, other, all key, under_way-remove key p pending at)
]

module _ (m : Manager) (pending : List Pending) (p : Pending) (at : Memᴰ p pending)
    (all : AreReserved m pending) where
  -- No other delivery under way has the key of one that is.
  pub alone : All (λ q. (q.key =$ p.key) ≡ false) (remove p.key pending)
  alone =
      none_under_way p.key (remove p.key pending) ground
        (arith, all p.key, under_way-remove p.key p pending at, =$-refl p.key)
