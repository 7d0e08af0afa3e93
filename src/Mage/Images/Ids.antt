-- ===== src/Mage/Images/Ids.antt =====
-- The ids that appendFile records and imageIDs reads again.
use configmapsecrets.Prelude.{
  ℕ, Text, text_eq, text_equality, insert, Bool, true, false, ◌&&◌, ◌||◌, not, List, [], ◌∷◌, ◌++◌,
  if◌then◌else◌, ◌≡◌, refl, arith, ap, sym, ◌∙◌,
}
use mathlib.Core.List.{append_assoc, append-nil}
use configmapsecrets.RefMap.{StringSet}
use configmapsecrets.RefMap.Assign.{mentions}
use configmapsecrets.RefMap.Consistent.{mentions-insert}
use configmapsecrets.Runtime.{
  Result, ok, err, Error, ForeignError, Exec, ◌>>=◌, ◌>>◌, pure, resume, as_error,
}
use configmapsecrets.Genapi.Texts.{null, lacks, split}
use configmapsecrets.Genapi.Idents.{dir}
use configmapsecrets.Genapi.Markdown.{trim_space}
use configmapsecrets.Mage.System.{System, Build, append, call}
use configmapsecrets.Mage.Files.{ends_line, line_text, mk_dir, write_line, put_line, append_file}
use configmapsecrets.Mage.Names.{join_path}
use configmapsecrets.Mage.Images.{add_ids, ids_of_files}

-- The text of the lines that were written
unfoldable pub appended : List Text → Text
appended [] = []
appended (msg ∷ msgs) = line_text msg ++ appended msgs

-- No message holds a newline.
unfoldable pub are_lines : List Text → Bool
are_lines [] = true
are_lines (msg ∷ msgs) = lacks 10 msg && are_lines msgs

-- Some message is this id, up to spaces around it.
unfoldable pub any_id : List Text → Text → Bool
any_id [] id = false
any_id (msg ∷ msgs) id =
    (not (null (trim_space msg)) && text_eq (trim_space msg) id) || any_id msgs id

ends_line-lacks : (s : Text) → lacks 10 s ≡ true → ends_line s ≡ false
unfolding lacks ends_line
ends_line-lacks [] h = refl
ends_line-lacks (c ∷ []) h = ground arith
ends_line-lacks (c ∷ d ∷ s) h = ground (arith, ends_line-lacks (d ∷ s))

split-append : (s t : Text) → lacks 10 s ≡ true → split 10 (s ++ (10 ∷ t)) ≡ s ∷ split 10 t
unfolding lacks split
split-append [] t h = ground arith
split-append (c ∷ s) t h = ground (arith, split-append s t)

split-appended :
    (msg : Text) (msgs : List Text)
    → lacks 10 msg ≡ true
    → split 10 (appended (msg ∷ msgs)) ≡ msg ∷ split 10 (appended msgs)
unfolding appended line_text
split-appended msg msgs h =
    rw (ends_line-lacks msg h, append_assoc msg (10 ∷ []) (appended msgs))
      (split-append msg (appended msgs) h)

mentions-add_ids :
    (msgs : List Text) (ids : StringSet) (id : Text)
    → are_lines msgs ≡ true
    → mentions (add_ids (split 10 (appended msgs)) ids) id ≡ (any_id msgs id || mentions ids id)
unfolding add_ids any_id are_lines
mentions-add_ids [] ids id h = unfold appended split trim_space in refl
mentions-add_ids (msg ∷ msgs) ids id h =
    let line : lacks 10 msg ≡ true = ground arith in
    let lines : are_lines msgs ≡ true = ground arith in
    let set = if null (trim_space msg) then ids else insert (trim_space msg) true ids in
    rw (split-appended msg msgs line)
      (ground (arith, mentions-add_ids msgs set id lines, mentions-insert (trim_space msg) id ids))

-- What the documentation of os says of one file, `content` being what it holds and `opens` whether a
-- handle is one of it: to make directories and to close leaves it, a handle that was opened to append
-- leaves it at first, and what is written to this handle is put at its end; to read it gives it.
pub record KeepsFile {W : Type 0} (sys : System W) (path : Text) (content : W → Text)
    (opens : ℕ → W → Bool) : Type 0 where
  pub make_dirs : (d : Text) (w : W) → content (sys.make_dirs d w).1 ≡ content w
  pub open_file :
      (h : ℕ) (w : W)
      → (sys.open_file append path w).0 ≡ ok h
      → (opens h (sys.open_file append path w).1 ≡ true)
        × (content (sys.open_file append path w).1 ≡ content w)
  pub write :
      (h : ℕ) (text : Text) (w : W)
      → opens h w ≡ true
      → (sys.write h text w).0 ≡ ok tt
      → content (sys.write h text w).1 ≡ content w ++ text
  pub close : (h : ℕ) (w : W) → content (sys.close h w).1 ≡ content w
  pub read_file : (buf : Text) (w : W) → (sys.read_file path w).0 ≡ ok buf → buf ≡ content w

as_error-ok : {A : Type 0} (r : Result ForeignError A) (a : A) → as_error r ≡ ok a → r ≡ ok a
as_error-ok (ok a) b e = ground arith
as_error-ok (err c) b e = ground arith

module _ {S A B : Type 0} (Q : B → S → Type 0) where
  resume-ends :
      (r : Result Error A) (f : A → Exec S B) (t : S) (b : B)
      → ((a : A) → r ≡ ok a → (f a t).0 ≡ ok b → Q b (f a t).1)
      → (resume r f t).0 ≡ ok b
      → Q b (resume r f t).1
  resume-ends (ok a) f t b h e = h a refl e
  resume-ends (err c) f t b h e = ground arith

  -- An action that gives a value has gone through both of its parts.
  bind-ends :
      (m : Exec S A) (f : A → Exec S B) (s : S) (b : B)
      → ((a : A) → (m s).0 ≡ ok a → (f a (m s).1).0 ≡ ok b → Q b (f a (m s).1).1)
      → ((m >>= f) s).0 ≡ ok b
      → Q b ((m >>= f) s).1
  unfolding ◌>>=◌
  bind-ends m f s b h e = resume-ends (m s).0 f (m s).1 b h e

module _ {W : Type 0} (sys : System W) where
  -- The calls of appendFile, one after the other
  unfoldable pub append_each : Text → List Text → Exec (Build W) (Unit {0})
  append_each path [] = pure tt
  append_each path (msg ∷ msgs) = do append_file sys path msg; append_each path msgs

  module _ (d name : Text) (content : W → Text) (opens : ℕ → W → Bool)
      (keeps : KeepsFile sys (join_path d name) content opens) where
    path : Text
    path = join_path d name

    append_file-content :
        (msg : Text) (s : Build W)
        → (append_file sys path msg s).0 ≡ ok tt
        → content (append_file sys path msg s).1.world ≡ content s.world ++ line_text msg
    unfolding append_file put_line mk_dir write_line path
    append_file-content msg s e =
        let Q =
          λ (u : Unit {0}) (t : Build W). content t.world ≡ content s.world ++ line_text msg in
        bind-ends Q (mk_dir sys (dir path)) _ s tt
          (λ _ _ e1.
            let w1 = (sys.make_dirs (dir path) s.world).1 in
            bind-ends Q (call (sys.open_file append path)) _ (record s { world = w1 }) tt
              (λ h eo e2.
                let w2 = (sys.open_file append path w1).1 in
                let (opened, kept) = keeps.open_file h w1 (as_error-ok _ h eo) in
                keeps.close h (sys.write h (line_text msg) w2).1
                ∙ keeps.write h (line_text msg) w2 opened (as_error-ok _ tt e2)
                ∙ ap (λ l. l ++ line_text msg) (kept ∙ keeps.make_dirs (dir path) s.world))
              e1)
          e

    append_each-content :
        (msgs : List Text) (s : Build W)
        → (append_each path msgs s).0 ≡ ok tt
        → content (append_each path msgs s).1.world ≡ content s.world ++ appended msgs
    unfolding append_each appended
    append_each-content [] s e = sym (append-nil (content s.world))
    append_each-content (msg ∷ msgs) s e =
        bind-ends (λ _ t. content t.world ≡ content s.world ++ (line_text msg ++ appended msgs))
          (append_file sys path msg) (λ _. append_each path msgs) s tt
          (λ u e1 e2.
            append_each-content msgs (append_file sys path msg s).1 e2
            ∙ ap (λ l. l ++ appended msgs) (append_file-content msg s e1)
            ∙ append_assoc (content s.world) (line_text msg) (appended msgs))
          e

    ids_of_files-content :
        (ids : StringSet) (set : StringSet) (t : Build W)
        → (ids_of_files sys d (record { name = name; is_dir = false } ∷ []) ids t).0 ≡ ok set
        → set ≡ add_ids (split 10 (content t.world)) ids
    unfolding ids_of_files path
    ids_of_files-content ids set t e =
        bind-ends (λ b _. b ≡ add_ids (split 10 (content t.world)) ids) (call (sys.read_file path))
          (λ buf. ids_of_files sys d [] (add_ids (split 10 buf) ids)) t set
          (λ buf er e1.
            let read = keeps.read_file buf t.world (as_error-ok _ buf er) in cc (read, e1))
          e

    -- Where the file starts empty, the messages have no newline, and all calls of appendFile with
    -- them succeed, one after the other, the loop of imageIDs over this file, if it can read it, adds
    -- exactly the messages, without the spaces around them and without the empty ones, to the ids
    -- that it has.
    pub ids_of_files-append_each :
        (msgs : List Text) (ids set : StringSet) (id : Text) (s : Build W)
        → content s.world ≡ []
        → are_lines msgs ≡ true
        → (append_each (join_path d name) msgs s).0 ≡ ok tt
        → (ids_of_files sys d
            (record { name = name; is_dir = false } ∷ [])
            ids
            (append_each (join_path d name) msgs s).1).0
          ≡ ok set
        → mentions set id ≡ (any_id msgs id || mentions ids id)
    unfolding path
    ids_of_files-append_each msgs ids set id s empty lines e r =
        let t = (append_each path msgs s).1 in
        let whole : content t.world ≡ appended msgs =
          append_each-content msgs s e ∙ ap (λ l. l ++ appended msgs) empty in
        ap (λ m. mentions m id) (ids_of_files-content ids set t r)
        ∙ ap (λ l. mentions (add_ids (split 10 l) ids) id) whole
        ∙ mentions-add_ids msgs ids id lines
