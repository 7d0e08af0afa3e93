-- ===== src/Mage/Publish/Indices.antt =====
-- Push without the indices: every architecture together with the digest of its own image.
use configmapsecrets.Prelude.{
  ℕ, suc, ◌+◌, Text, codes, true, some, List, [], ◌∷◌, ◌++◌, ◌≡◌, refl, arith, ap, sym, ◌∙◌,
}
use mathlib.Core.List.{append_assoc, append-nil}
use configmapsecrets.Runtime.{Exec, ◌>>=◌, ◌>>◌, pure}
use configmapsecrets.Mage.System.{System, Build, imgs, call, need}
use configmapsecrets.Mage.Files.{write_file}
use configmapsecrets.Mage.Names.{arches, arch_tag, image, manifest, image_push_path}
use configmapsecrets.Mage.Publish.{
  get_elem?, experimental, push_images, annotate_one, annotate, push_due,
}
use configmapsecrets.Mage.Publish.Binds.{
  Gives, bind-Gives, bind-Gives_from, bind_congr, bind_first, pure_bind, bind_same, bind_again,
}

abbrev pub length : List Text → ℕ
length [] = 0
length (_ ∷ l) = suc (length l)

length-append : (l m : List Text) → length (l ++ m) ≡ length l + length m
length-append [] m = ground arith
length-append (a ∷ l) m = ground (arith, length-append l m)

get_elem?-append :
    (before : List Text) (tag : Text) (tags : List Text)
    → get_elem? (before ++ tag ∷ tags) (length before) ≡ some tag
unfolding get_elem?
get_elem?-append [] tag tags = refl
get_elem?-append (_ ∷ before) tag tags = get_elem?-append before tag tags

next_index : (before : List Text) (tag : Text) → suc (length before) ≡ length (before ++ tag ∷ [])
next_index before tag = ground (arith, length-append before (tag ∷ []))

append_next :
    (before : List Text) (tag : Text) (tags : List Text)
    → before ++ tag ∷ tags ≡ (before ++ tag ∷ []) ++ tags
append_next before tag tags = sym (append_assoc before (tag ∷ []) tags)

-- An architecture with the digest of its image
abbrev Pushed : Type 0
Pushed = Text × Text

archs_of : List Pushed → List Text
archs_of [] = []
archs_of ((arch, _) ∷ pushed) = arch ∷ archs_of pushed

unfoldable pub digests_of : List Pushed → List Text
digests_of [] = []
digests_of ((_, digest) ∷ pushed) = digest ∷ digests_of pushed

module _ {W : Type 0} (sys : System W) where
  -- For each architecture in turn its image is tagged and pushed, and its digest is read.
  unfoldable pub push_each : List Text → Exec (Build W) (List Pushed)
  push_each [] = pure []
  push_each (arch ∷ rest) = do
    src ← image sys arch
    tag ← arch_tag sys arch
    call (sys.run [] (codes "docker" ∷ codes "tag" ∷ src ∷ tag ∷ []))
    call (sys.run [] (codes "docker" ∷ codes "push" ∷ tag ∷ []))
    digest ← call (
        sys.output []
          (codes "docker" ∷ codes "inspect" ∷ codes "--format={{index .RepoDigests 0}}" ∷ tag ∷ []))
    pushed ← push_each rest
    pure ((arch, digest) ∷ pushed)

  -- For each architecture the digest is annotated that was read for it.
  unfoldable pub annotate_each : Text → List Pushed → Exec (Build W) (Unit {0})
  annotate_each base [] = pure tt
  annotate_each base ((arch, digest) ∷ pushed) = do
    annotate_one sys base arch digest
    annotate_each base pushed

  -- Push with these in place of its loops over two lists and an index
  unfoldable pub push_all : Exec (Build W) (Unit {0})
  unfolding push_each annotate_each digests_of
  push_all = do
    need sys (imgs ∷ [])
    base ← manifest sys
    pushed ← push_each arches
    call (
        sys.output experimental (
          codes "docker"
          ∷ codes "manifest"
          ∷ codes "create"
          ∷ codes "--amend"
          ∷ base
          ∷ digests_of pushed))
    annotate_each base pushed
    call (
        sys.run experimental
          (codes "docker" ∷ codes "manifest" ∷ codes "push" ∷ codes "--purge" ∷ base ∷ []))
    out ←
        call (
          sys.output experimental (codes "docker" ∷ codes "manifest" ∷ codes "inspect" ∷ base ∷ []))
    path ← image_push_path sys base
    write_file sys path out

  push_each-archs_of : (archs : List Text) → Gives (λ l. archs ≡ archs_of l) (push_each archs)
  unfolding push_each archs_of
  push_each-archs_of [] = λ s l e. ground arith
  push_each-archs_of (arch ∷ rest) = bind-Gives _ _ _ (λ src. bind-Gives _ _ _ (λ tag.
      bind-Gives _ _ _ (λ _. bind-Gives _ _ _ (λ _. bind-Gives _ _ _ (λ digest.
        bind-Gives_from (λ l. rest ≡ archs_of l) _ _ _ (push_each-archs_of rest)
          (λ pushed q s l e. ground (arith, q)))))))

  push_images-push_each :
      (archs tags : List Text) (s : Build W)
      → push_images sys tags archs s
        ≡ (push_each archs >>= λ pushed. pure (tags ++ digests_of pushed)) s
  unfolding push_images push_each digests_of
  push_images-push_each [] tags s =
      ap (λ l. pure l s) (sym (append-nil tags)) ∙ sym (pure_bind _ _ s)
  push_images-push_each (arch ∷ rest) tags s = bind_again _ _ _ _ s (λ src s1.
      bind_again _ _ _ _ s1 (λ tag s2. bind_again _ _ _ _ s2 (λ _ s3. bind_again _ _ _ _ s3 (λ _ s4.
        bind_again _ _ _ _ s4 (λ digest s5.
          push_images-push_each rest (tags ++ digest ∷ []) s5
          ∙ bind_again (push_each rest) _ _ _ s5 (λ pushed s6.
            ap (λ l. pure l s6) (append_assoc tags (digest ∷ []) (digests_of pushed))
            ∙ sym (pure_bind _ _ s6)))))))

  annotate_next :
      (base : Text) (before : List Text) (tag : Text) (tags archs : List Text) (s : Build W)
      → annotate sys base (before ++ tag ∷ tags) (suc (length before)) archs s
        ≡ annotate sys base ((before ++ tag ∷ []) ++ tags) (length (before ++ tag ∷ [])) archs s
  annotate_next base before tag tags archs s =
      ap (λ l. annotate sys base l (suc (length before)) archs s) (append_next before tag tags)
      ∙ ap (λ i. annotate sys base ((before ++ tag ∷ []) ++ tags) i archs s) (next_index before tag)

  annotate-annotate_each :
      (base : Text) (before : List Text) (pushed : List Pushed) (s : Build W)
      → annotate sys base (before ++ digests_of pushed) (length before) (archs_of pushed) s
        ≡ annotate_each base pushed s
  unfolding annotate annotate_each digests_of archs_of
  annotate-annotate_each base before [] s = refl
  annotate-annotate_each base before ((arch, tag) ∷ pushed) s =
      rw (get_elem?-append before tag (digests_of pushed)) (
        pure_bind tag _ s
        ∙ bind_same (annotate_one sys base arch tag) _ _ s (λ _ t.
          annotate_next base before tag (digests_of pushed) (archs_of pushed) t
          ∙ annotate-annotate_each base (before ++ tag ∷ []) pushed t))

  annotate-arches :
      (base : Text) (pushed : List Pushed) (s : Build W)
      → arches ≡ archs_of pushed
      → annotate sys base (digests_of pushed) 0 arches s ≡ annotate_each base pushed s
  annotate-arches base pushed s e =
      ap (λ l. annotate sys base (digests_of pushed) 0 l s) e
      ∙ annotate-annotate_each base [] pushed s

  -- Push after its guard does what it does with each architecture and its digest in a pair: the
  -- manifest is made of the digests in the order of the architectures, the index into tags is never
  -- out of range, and every architecture is annotated with the digest that docker gave for its own
  -- tag.
  pub push_due-push_all : (s : Build W) → push_due sys true s ≡ push_all s
  unfolding push_due push_all
  push_due-push_all s = bind_same _ _ _ s (λ _ s1. bind_same _ _ _ s1 (λ base s2.
      bind_first _ _ _ s2 (push_images-push_each arches [] s2)
      ∙ sym (bind_again (push_each arches) _ _ _ s2 (λ pushed s3. sym (pure_bind _ _ s3)))
      ∙ bind_congr (λ l. arches ≡ archs_of l) _ _ _ s2 (push_each-archs_of arches)
          (λ pushed s3 e.
            bind_same _ _ _ s3 (λ _ s4. bind_first _ _ _ s4 (annotate-arches base pushed s4 e)))))
