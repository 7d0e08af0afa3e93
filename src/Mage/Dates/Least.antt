-- ===== src/Mage/Dates/Least.antt =====
-- What earliestMod finds.
use configmapsecrets.Prelude.{
  ℕ, ◌≤◌, ◌<◌, Text, text_eq, text_eq_iff, Bool, true, ◌||◌, List, [], ◌∷◌, ◌++◌, ◌≡◌, refl, arith,
  ◌∙◌,
}
use configmapsecrets.Runtime.{Result, ok, err, ForeignError}
use configmapsecrets.Genapi.Texts.{member}
use configmapsecrets.Mage.System.{System, Build}
use configmapsecrets.Mage.Dates.{Dated, earlier, earliest_from, earliest_mod}

-- Every file of the list is there, with a time that is not zero.
abbrev pub AreDated : (Text → Result ForeignError ℕ) → List Text → Type 0
AreDated answer [] = Unit
AreDated answer (file ∷ files) = ((t : ℕ) × (answer file ≡ ok t) × (0 < t)) × AreDated answer files

-- One of the files that are seen, with its time, which is the least of theirs.
pub record IsLeast (answer : Text → Result ForeignError ℕ) (seen : Text → Bool) (d : Dated)
    : Type 0 where
  pub is_seen : seen d.name ≡ true
  pub dated : answer d.name ≡ ok d.time
  pub least : (file : Text) (t : ℕ) → seen file ≡ true → answer file ≡ ok t → d.time ≤ t
  pub not_zero : 0 < d.time

module _ (answer : Text → Result ForeignError ℕ) where
  earlier-IsLeast :
      (seen : Text → Bool) (d : Dated) (file : Text) (t : ℕ)
      → IsLeast answer seen d
      → answer file ≡ ok t
      → 0 < t
      → IsLeast answer (λ f. text_eq file f || seen f) (earlier file t d)
  unfolding earlier
  earlier-IsLeast seen d file t h e p = record {
    is_seen = ground (arith, text_eq_iff file file, h.is_seen);
    dated = ground (arith, h.dated, e);
    least = λ f u m ef. ground (arith, h.least f u, text_eq_iff file f, e, ef);
    not_zero = ground (arith, h.not_zero, p);
  }

  same_seen :
      (seen seen' : Text → Bool) (d : Dated)
      → ((f : Text) → seen f ≡ seen' f)
      → IsLeast answer seen d
      → IsLeast answer seen' d
  same_seen seen seen' d e h = record {
    is_seen = cc (e d.name, h.is_seen);
    dated = h.dated;
    least = λ f t m. h.least f t (cc (e f, m));
    not_zero = h.not_zero;
  }

  module _ {W : Type 0} (sys : System W)
      (stats : (f : Text) (w : W) → sys.stat f w ≡ (answer f, w)) where
    earliest_from_dated :
        (d : Dated) (file : Text) (files : List Text) (t : ℕ) (s : Build W)
        → answer file ≡ ok t
        → earliest_from sys d (file ∷ files) s ≡ earliest_from sys (earlier file t d) files s
    unfolding earliest_from
    earliest_from_dated d file files t s e = rw (stats file s.world, e) refl

    earliest_from-IsLeast :
        (files : List Text) (seen : Text → Bool) (d : Dated) (s : Build W)
        → IsLeast answer seen d
        → AreDated answer files
        → (d' : Dated) × (earliest_from sys d files s ≡ (ok d', s))
          × IsLeast answer (λ f. member f files || seen f) d'
    unfolding member earliest_from
    earliest_from-IsLeast [] seen d s h a = (d, refl, h)
    earliest_from-IsLeast (file ∷ files) seen d s h a =
        let (t, e, p) = a.0 in
        let (d', run, least) =
          earliest_from-IsLeast files _ (earlier file t d) s (earlier-IsLeast seen d file t h e p)
            (a.1) in
        (
          d',
          earliest_from_dated d file files t s e ∙ run,
          same_seen _ _ d' (λ f. ground arith) least,
        )

    -- Where Stat answers alike at all times, and every file of a list that is not empty is there
    -- with a time that is not zero, earliestMod returns one of them whose time is the least.
    pub earliest_mod-IsLeast :
        (file : Text) (files : List Text) (s : Build W)
        → AreDated answer (file ∷ files)
        → (d : Dated) × (earliest_mod sys (file ∷ files) s ≡ (ok d, s))
          × IsLeast answer (λ f. member f (file ∷ files)) d
    unfolding earliest_mod earlier
    earliest_mod-IsLeast file files s a =
        let (t, e, p) = a.0 in
        let (d', run, least) =
          earliest_from-IsLeast files (text_eq file) (record { name = file; time = t }) s
            (record {
              is_seen = (text_eq_iff file file).1 refl;
              dated = e;
              least = λ f u m ef. ground (arith, text_eq_iff file f, e, ef);
              not_zero = p;
            })
            (a.1) in
        (
          d',
          earliest_from_dated (record { name = []; time = 0 }) file files t s e ∙ run,
          same_seen (λ f. member f files || text_eq file f) (λ f. member f (file ∷ files)) d'
              (λ f. unfold member in ground arith) least,
        )

    earliest_from_missing :
        (before : List Text) (d : Dated) (file : Text) (after : List Text) (e : ForeignError)
        (s : Build W)
        → AreDated answer before
        → answer file ≡ err e
        → sys.is_not_exist e ≡ true
        → earliest_from sys d (before ++ file ∷ after) s
          ≡ (ok (record { name = file; time = 0 }), s)
    unfolding earliest_from
    earliest_from_missing [] d file after e s a m g = rw (stats file s.world, m, g) refl
    earliest_from_missing (f ∷ before) d file after e s a m g =
        earliest_from_dated d f (before ++ file ∷ after) (a.0.0) s (a.0.1)
        ∙ earliest_from_missing before (earlier f (a.0.0) d) file after e s (a.1) m g

    -- Where some file is missing and those before it are there, earliestMod returns it, without a
    -- time.
    pub earliest_mod-missing :
        (before : List Text) (file : Text) (after : List Text) (e : ForeignError) (s : Build W)
        → AreDated answer before
        → answer file ≡ err e
        → sys.is_not_exist e ≡ true
        → earliest_mod sys (before ++ file ∷ after) s ≡ (ok (record { name = file; time = 0 }), s)
    unfolding earliest_mod
    earliest_mod-missing before file after e s a m g =
        earliest_from_missing before _ file after e s a m g
