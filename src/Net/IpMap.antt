-- ===== src/Net/IpMap.antt =====
-- `IpMap` of src/extensions/networking/protocols.rs, and the handler's `BTreeMap`s: association lists
-- that hold a key at most once. The lock and the masked interrupts make each call atomic.
use rucoonos.Prelude.{
  Bool, true, ◌&&◌, ◌≡◌, ◌↔◌, refl, arith, List, [], ◌∷◌, Option, none, some, ◌==◌, if◌then◌else◌,
}
use rucoonos.Net.Wire.{Array4, Array6}

-- The equality of two IP addresses and of two MAC addresses.
abbrev pub eq4 : Array4 → Array4 → Bool
eq4 a b = (a.b0 == b.b0) && (a.b1 == b.b1) && (a.b2 == b.b2) && (a.b3 == b.b3)

abbrev pub eq6 : Array6 → Array6 → Bool
eq6 a b =
    (a.b0 == b.b0)
    && (a.b1 == b.b1)
    && (a.b2 == b.b2)
    && (a.b3 == b.b3)
    && (a.b4 == b.b4)
    && (a.b5 == b.b5)

pub eq4_iff : (a b : Array4) → (eq4 a b ≡ true) ↔ (a ≡ b)
eq4_iff a b = ground arith

pub eq4_self : (a : Array4) → eq4 a a ≡ true
eq4_self a = ground arith

pub eq6_self : (a : Array6) → eq6 a a ≡ true
eq6_self a = ground arith

module _ {ℓ κ} {K : Type ℓ} {V : Type κ} (eq : K → K → Bool) where
  unfoldable pub get : K → List (K × V) → Option V
  get k [] = none
  get k ((j, v) ∷ m) = if eq j k then some v else get k m

  unfoldable pub insert : K → V → List (K × V) → List (K × V)
  insert k v [] = (k, v) ∷ []
  insert k v ((j, w) ∷ m) = if eq j k then (k, v) ∷ m else (j, w) ∷ insert k v m

  unfoldable pub remove : K → List (K × V) → List (K × V)
  remove k [] = []
  remove k ((j, w) ∷ m) = if eq j k then m else (j, w) ∷ remove k m

abbrev pub IpMap : Type 0
IpMap = List (Array4 × Array6)

unfoldable pub new : IpMap
new = []

unfoldable pub try_get : IpMap → Array4 → Option Array6
unfolding get
try_get m ip = get eq4 ip m

unfoldable pub set : IpMap → Array4 → Array6 → IpMap
unfolding insert
set m ip mac = insert eq4 ip mac m

-- A binding is read back, and hides no other.
pub get-insert {ℓ} :
    {V : Type ℓ} (k j : Array4) (v : V) (m : List (Array4 × V))
    → get eq4 j (insert eq4 k v m) ≡ (if eq4 k j then some v else get eq4 j m)
unfolding get insert
get-insert k j v [] = refl
get-insert k j v ((i, w) ∷ m) = ground (arith, get-insert k j v m)

-- After `set`, the address that was set is found with the new value, and every other one as before.
pub try_get-set :
    (m : IpMap) (ip j : Array4) (mac : Array6)
    → try_get (set m ip mac) j ≡ (if eq4 ip j then some mac else try_get m j)
unfolding try_get set
try_get-set m ip j mac = get-insert ip j mac m
