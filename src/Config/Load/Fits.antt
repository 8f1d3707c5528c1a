-- ===== src/Config/Load/Fits.antt =====
-- The keys a section has had, and the entries of a list whose last one an option changes.
use ctunnel.Prelude.{
  ℕ, ◌<◌, ◌≤◌, ◌≡◌, refl, ◌||◌, List, [], ◌∷◌, ◌++◌, ◌==◌, leb, length, length-append, All, arith,
  either_way, by_test,
}
use ctunnel.Config.Build.{Build}
use ctunnel.Config.Values.{
  Outcome, done, invalid, unavailable, unknown, over, Seen, duplicate, too_many, fresh, any_eq,
  key_seen,
}
use ctunnel.Config.Options.Ranges.{Stored}
use ctunnel.Config.Reader.{Result, ok, error}
use ctunnel.Config.Reader.Fuel.{Holds}
use ctunnel.Config.Load.{any_addr, on_last, bind}

-- The keys of a section: at most `capacity`, each in 32 bytes.
abbrev pub SeenFits : (capacity : ℕ) → List (List ℕ) → Type 0
SeenFits capacity seen = (length seen ≤ capacity) × All (λ (k : List ℕ). length k < 32) seen

pub All-snoc :
    {A : Type 0} (P : A → Type 0) (xs : List A) (x : A) → All P xs → P x → All P (xs ++ (x ∷ []))
All-snoc P [] x h k = (k, tt)
All-snoc P (y ∷ xs) x h k = (h.0, All-snoc P xs x h.1 k)

-- What holds of the keys with the new one.
abbrev pub Fresh : (List (List ℕ) → Type 0) → Seen → Type 0
Fresh P duplicate = Unit {0}
Fresh P too_many = Unit {0}
Fresh P (fresh seen) = P seen

pub key_seen-Fresh :
    (seen : List (List ℕ)) (capacity : ℕ) (k : List ℕ)
    → SeenFits capacity seen
    → Fresh (SeenFits capacity) (key_seen seen capacity k)
unfolding key_seen
key_seen-Fresh seen capacity k f = either_way (Fresh (SeenFits capacity)) (any_eq k seen) tt (
    by_test (Fresh (SeenFits capacity)) (length seen == capacity || leb 32 (length k)) (λ e. tt)
      (λ e. (
        ground (arith, e, f.0, length-append seen (k ∷ [])),
        All-snoc (λ (t : List ℕ). length t < 32) seen k f.1 (ground (arith, e)),
      )))

pub over-Stored :
    {A B : Type 0} (P : A → Type 0) (Q : B → Type 0) (g : A → B) (o : Outcome A)
    → Stored P o
    → ((a : A) → P a → Q (g a))
    → Stored Q (over g o)
over-Stored P Q g (done a) h k = k a h
over-Stored P Q g invalid h k = tt
over-Stored P Q g unavailable h k = tt
over-Stored P Q g unknown h k = tt

-- A list of as many entries, of the same kind.
abbrev pub SameShape : {A : Type 0} → (A → Type 0) → (xs ys : List A) → Type 0
SameShape P xs ys = (length ys ≡ length xs) × All P ys

pub on_last-Stored :
    {A : Type 0} (P : A → Type 0) (f : A → Outcome A) (xs : List A)
    → ((a : A) → P a → Stored P (f a))
    → All P xs
    → Stored (SameShape P xs) (on_last f xs)
unfolding on_last
on_last-Stored P f [] h k = tt
on_last-Stored P f (a ∷ []) h k =
    over-Stored P (SameShape P (a ∷ [])) (λ x. x ∷ []) (f a) (h a k.0) (λ x p. (refl, (p, tt)))
on_last-Stored P f (a ∷ y ∷ xs) h k =
    over-Stored (SameShape P (y ∷ xs)) (SameShape P (a ∷ y ∷ xs)) (a ∷◌) (on_last f (y ∷ xs))
      (on_last-Stored P f (y ∷ xs) h k.1) (λ ys p. (omega (arith, p.0), (k.0, p.1)))

pub bind-Holds :
    {S T E : Type 0} (P : S → Type 0) (Q : T → Type 0) (x : Result S E) (next : S → Result T E)
    → Holds P x
    → ((s : S) → P s → Holds Q (next s))
    → Holds Q (bind x next)
bind-Holds P Q (ok s) next h k = k s h
bind-Holds P Q (error e) next h k = tt

pub length-any_addr : (b : Build) → length (any_addr b) ≤ 7
length-any_addr b = either_way (λ (t : List ℕ). length t ≤ 7) b.ipv6 (omega arith) (omega arith)
