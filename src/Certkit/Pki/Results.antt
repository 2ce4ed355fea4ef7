-- ===== src/Certkit/Pki/Results.antt =====
-- certkit/pki/pki.go: what a successful call tells of the calls that it makes.
use albstractions.Prelude.{
  ◌≡◌, refl, Bool, true, false, not, if◌then◌else◌, Option, none, some, inl, inr,
}
use albstractions.Certkit.Pki.{Failure, Result, bind, checked}

-- The result of a chain is a result of its first call and of the rest.
pub bind-inr :
    {A B : Type 0} (x : Result A) (f : A → Result B) (b : B)
    → bind x f ≡ inr b
    → (a : A) × (x ≡ inr a) × (f a ≡ inr b)
unfolding bind
bind-inr (inl err) f b e = absurd (cc)
bind-inr (inr a) f b e = (a, refl, e)

pub checked-inr :
    {A : Type 0} (err : Failure) (o : Option A) (a : A) → checked err o ≡ inr a → o ≡ some a
checked-inr err none a e = absurd (cc)
checked-inr err (some b) a e = cc

pub inr-eq : {A : Type 0} (a b : A) → ◌≡◌ {A = Result A} (inr a) (inr b) → a ≡ b
inr-eq a b e = cc

-- Two guards that were passed.
pub guards-inr :
    {A : Type 0} (asked refused : Bool) (f g : Failure) (a b : A)
    → ◌≡◌ {A = Result A} (if not asked then inl f else if refused then inl g else inr a) (inr b)
    → (asked ≡ true) × (refused ≡ false) × (a ≡ b)
guards-inr false refused f g a b e = absurd (cc)
guards-inr true true f g a b e = absurd (cc)
guards-inr true false f g a b e = (refl, refl, inr-eq a b e)
