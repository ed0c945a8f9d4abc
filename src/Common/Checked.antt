-- ===== src/Common/Checked.antt =====
-- Computations that may fault: `none` is a failed assertion or an access outside of an object.
use Prim.Native.Nat.{ℕ, ◌+◌, ◌≤◌}
use mathlib.Core.Path.{◌≡◌, refl}
use native.Mathlib.Omega.{arith}
use mathlib.Core.Bool.{Bool, true, false}
use mathlib.Core.List.{List, ◌++◌, append_assoc}
use mathlib.Core.Option.{Option, none, some}
use circle_stdlib.Common.Tests.{leb, le→leb, if◌then◌else◌}
use circle_stdlib.Common.Lists.{
  length, take, drop, All, All-append, All-take, All-drop, length-take, length-drop, length-append,
  take-append, drop-append,
}

infixl 5 ◌>>=◌ ◌>>◌
abbrev pub ◌>>=◌ {ℓ κ} : {A : Type ℓ} {B : Type κ} → Option A → (A → Option B) → Option B
none >>= f = none
some a >>= f = f a

abbrev pub ◌>>◌ {ℓ} : {B : Type ℓ} → Option (Unit {0}) → Option B → Option B
m >> k = m >>= λ _. k

-- `assert`
abbrev pub assert : Bool → Option (Unit {0})
assert true = some tt
assert false = none

-- The computation does not fault, and its result satisfies `P`.
abbrev pub Holds {ℓ} : {A : Type ℓ} → (A → Type 0) → Option A → Type 0
Holds P none = ⊥
Holds P (some a) = P a

pub Holds->>= {ℓ κ} :
    {A : Type ℓ} {B : Type κ} (P : A → Type 0) (Q : B → Type 0) (m : Option A) (f : A → Option B)
    → Holds P m
    → ((a : A) → P a → Holds Q (f a))
    → Holds Q (m >>= f)
Holds->>= P Q none f h k = absurd h
Holds->>= P Q (some a) f h k = k a h

pub Holds-mono {ℓ} :
    {A : Type ℓ} (P Q : A → Type 0) (m : Option A) → ((a : A) → P a → Q a) → Holds P m → Holds Q m
Holds-mono P Q none k h = h
Holds-mono P Q (some a) k h = k a h

-- A computation that starts with a known result.
pub Holds-known {ℓ κ} :
    {A : Type ℓ} {B : Type κ} (P : B → Type 0) (m : Option A) (a : A) (f : A → Option B)
    → m ≡ some a
    → Holds P (f a)
    → Holds P (m >>= f)
Holds-known P m a f e h = rw e h

-- A test whose result is known.
pub Holds-then {ℓ} :
    {A : Type ℓ} (P : A → Type 0) (b : Bool) (m k : Option A)
    → b ≡ true
    → Holds P m
    → Holds P (if b then m else k)
Holds-then P b m k e h = rw e h

pub Holds-else {ℓ} :
    {A : Type ℓ} (P : A → Type 0) (b : Bool) (m k : Option A)
    → b ≡ false
    → Holds P k
    → Holds P (if b then m else k)
Holds-else P b m k e h = rw e h

-- A test whatever its result.
pub Holds-if {ℓ} :
    {A : Type ℓ} (P : A → Type 0) (b : Bool) (m k : Option A)
    → Holds P m
    → Holds P k
    → Holds P (if b then m else k)
Holds-if P true m k f g = f
Holds-if P false m k f g = g

pub Holds-elim {ℓ κ} :
    {A : Type ℓ} {B : Type κ} (P : A → Type 0) (o : Option B) (m : Option A) (f : B → Option A)
    → Holds P m
    → ((b : B) → Holds P (f b))
    → Holds P (elim o [ none ↦ m | some b ↦ f b ])
Holds-elim P none m f x y = x
Holds-elim P (some b) m f x y = y b

-- What a known result satisfies.
pub Holds_some {ℓ} :
    {A : Type ℓ} (P : A → Type 0) (m : Option A) (a : A) → m ≡ some a → Holds P m → P a
Holds_some P m a e h = rw e at h

-- A computation that satisfies anything has a result.
pub Holds-result {ℓ} :
    {A : Type ℓ} (P : A → Type 0) (m : Option A) → Holds P m → (a : A) × (m ≡ some a) × P a
Holds-result P none h = absurd h
Holds-result P (some a) h = (a, refl, h)

-- `memcpy` of the bytes `bs` to the offset `i` of an array.
unfoldable pub copy_in {ℓ} : {A : Type ℓ} → List A → ℕ → List A → Option (List A)
copy_in buf i bs =
    if leb (i + length bs) (length buf)
    then some (take i buf ++ (bs ++ drop (i + length bs) buf))
    else none

-- A write over the middle part of an array, by as many bytes.
pub copy_in_middle {ℓ} :
    {A : Type ℓ} (i : ℕ) (front old new back : List A)
    → i ≡ length front
    → length new ≡ length old
    → copy_in (front ++ (old ++ back)) i new ≡ some (front ++ (new ++ back))
unfolding copy_in
copy_in_middle i front old new back e f = rw (
  le→leb (i + length new) (length (front ++ (old ++ back)))
      (omega (arith, length-append front (old ++ back), length-append old back)),
  take-append i front (old ++ back) e,
  tail,
)
  where
    tail : drop (i + length new) (front ++ (old ++ back)) ≡ back
    tail =
        rw (← append_assoc front old back) (
          drop-append (i + length new) (front ++ old) back (omega (arith, length-append front old)))

pub copy_in-All {ℓ} :
    {A : Type ℓ} (P : A → Type 0) (buf bs : List A) (i : ℕ)
    → All P buf
    → All P bs
    → i + length bs ≤ length buf
    → Holds (λ buf'. All P buf' × (length buf' ≡ length buf)) (copy_in buf i bs)
unfolding copy_in
copy_in-All P buf bs i a b h = rw (le→leb (i + length bs) (length buf) h) (
  All-append P (take i buf) (bs ++ drop (i + length bs) buf) (All-take P i buf a)
      (All-append P bs (drop (i + length bs) buf) b (All-drop P (i + length bs) buf a)),
  omega (
    arith,
    length-append (take i buf) (bs ++ drop (i + length bs) buf),
    length-append bs (drop (i + length bs) buf),
    length-take i buf,
    length-drop (i + length bs) buf,
  ),
)
