-- ===== src/Extensions/Install/Left.antt =====
-- What an installation (src/formshift_server/extensions.py) leaves of the extensions directory where
-- a step of it fails.
use formshift_server.Prelude.{
  String, Bool, true, false, Option, none, some, [], ◌∷◌, ◌≡◌, ◌≢◌, ◌⊎◌, inl, inr, refl, sym, ◌∙◌,
  arith, string_eq, eq_iff, Bool-cases,
}
use formshift_server.Prelude.Dict
use formshift_server.Prelude.Dict.{Dict, remove_absent}
use formshift_server.Extensions.Install.{
  Document, Root, Listing, CallEnd, done, fails, breaks, Remains, removed, remains, Conditions,
  insert_root, precedes, unfinished, partly_copied, partly_written, finished, after_write,
  after_venv, with_part, after_copy, after_make, prepare, part_of, replace_root, clean,
}

pub remove-insert_root :
    (name : String) (root : Root) (disk : Listing)
    → Dict.get name disk ≡ none
    → Dict.remove name (insert_root name root disk) ≡ disk
unfolding insert_root Dict.remove Dict.get
remove-insert_root name root [] h = ground (arith, eq_iff name name)
remove-insert_root name root ((other, r) ∷ disk) h =
    let apart : string_eq.beq other name ≡ false = ground (arith, h) in
    let rest : Dict.get name disk ≡ none = ground (arith, h) in
    let absent = remove_absent name disk rest in
    let more = remove-insert_root name root disk rest in
    elim (Bool-cases (precedes name other)) [
      | inl e ↦ ground (arith, e, apart, absent, eq_iff name name)
      | inr e ↦ ground (arith, e, apart, more)
    ]

replace_root-insert_root :
    (f : Root → Root) (name : String) (root : Root) (disk : Listing)
    → Dict.get name disk ≡ none
    → replace_root f name (insert_root name root disk) ≡ insert_root name (f root) disk
unfolding insert_root replace_root Dict.get
replace_root-insert_root f name root [] h = ground (arith, eq_iff name name)
replace_root-insert_root f name root ((other, r) ∷ disk) h =
    let apart : string_eq.beq other name ≡ false = ground (arith, h) in
    let rest : Dict.get name disk ≡ none = ground (arith, h) in
    let more = replace_root-insert_root f name root disk rest in
    elim (Bool-cases (precedes name other)) [
      | inl e ↦ ground (arith, e, apart, eq_iff name name)
      | inr e ↦ ground (arith, e, apart, more)
    ]

replace_root-absent :
    (f : Root → Root) (name : String) (disk : Listing)
    → Dict.get name disk ≡ none
    → replace_root f name disk ≡ disk
unfolding replace_root Dict.get
replace_root-absent f name [] h = refl
replace_root-absent f name ((other, r) ∷ disk) h =
    let apart : string_eq.beq other name ≡ false = ground (arith, h) in
    let more = replace_root-absent f name disk (ground (arith, h)) in ground (arith, apart, more)

-- What `prepare` leaves.
pub data Prepared (world : Conditions) (name : String) (disk : Listing)
    : Listing × CallEnd → Type 0 where
  ready : Prepared world name disk (insert_root name (finished world) disk, done)
  untouched : (o : CallEnd) → o ≢ done → Prepared world name disk (disk, o)
  partial :
      (root : Root) (o : CallEnd)
      → o ≢ done
      → root.is_complete ≡ false
      → Prepared world name disk (insert_root name root disk, o)
  unwritten :
      (root : Root) (o : CallEnd)
      → o ≢ done
      → root.is_complete ≡ true
      → world.wrote ≡ o
      → world.has_state ≡ true
      → Prepared world name disk (insert_root name root disk, o)

fails-ne-done : fails ≢ done
fails-ne-done e = ground arith

breaks-ne-done : breaks ≢ done
breaks-ne-done e = ground arith

module _ (world : Conditions) (name : String) (disk : Listing) where
  partly_written-Prepared :
      (o : CallEnd)
      → o ≢ done
      → world.wrote ≡ o
      → Prepared world name disk (insert_root name (partly_written world) disk, o)
  partly_written-Prepared o ne is_o = elim (Bool-cases world.has_state) [
    | inl e ↦ unwritten (partly_written world) o ne e is_o e
    | inr e ↦ partial (partly_written world) o ne e
  ]

  after_write-Prepared :
      (o : CallEnd) → world.wrote ≡ o → Prepared world name disk (after_write world name disk o)
  unfolding after_write
  after_write-Prepared done is_o = ready
  after_write-Prepared fails is_o = partly_written-Prepared fails fails-ne-done is_o
  after_write-Prepared breaks is_o = partly_written-Prepared breaks breaks-ne-done is_o

  after_venv-Prepared : (o : CallEnd) → Prepared world name disk (after_venv world name disk o)
  unfolding after_venv
  after_venv-Prepared done = after_write-Prepared world.wrote refl
  after_venv-Prepared fails = partial (unfinished world) fails fails-ne-done refl
  after_venv-Prepared breaks = partial (unfinished world) breaks breaks-ne-done refl

  with_part-Prepared :
      (part : Option Document) (o : CallEnd)
      → o ≢ done
      → Prepared world name disk (with_part world name disk part, o)
  unfolding with_part
  with_part-Prepared (some document) o ne = partial (partly_copied document) o ne refl
  with_part-Prepared none o ne = untouched o ne

  after_copy-Prepared : (o : CallEnd) → Prepared world name disk (after_copy world name disk o)
  unfolding after_copy
  after_copy-Prepared done = after_venv-Prepared world.venv
  after_copy-Prepared fails = with_part-Prepared world.part fails fails-ne-done
  after_copy-Prepared breaks = with_part-Prepared world.part breaks breaks-ne-done

  after_make-Prepared : (o : CallEnd) → Prepared world name disk (after_make world name disk o)
  unfolding after_make
  after_make-Prepared done = after_copy-Prepared world.copied
  after_make-Prepared fails = untouched fails fails-ne-done
  after_make-Prepared breaks = untouched breaks breaks-ne-done

  pub prepare-Prepared : Prepared world name disk (prepare world name disk)
  unfolding prepare
  prepare-Prepared = after_make-Prepared world.made

-- What a failed installation leaves of the listing: all as it was, or one more directory, without
-- the state file.
pub data IsDebris (disk : Listing) : Listing → Type 0 where
  same : IsDebris disk disk
  debris :
      (name : String) (root : Root)
      → root.is_complete ≡ false
      → IsDebris disk (insert_root name root disk)

abbrev pub keeps_state : Remains → Bool
keeps_state removed = false
keeps_state (remains _ keeps) = keeps

-- The write of the state file made it and did not return, and it is still there: `rmtree` was not
-- called or did not remove it.
pub record IsMarked (world : Conditions) : Type 0 where
  pub unwritten : world.wrote ≢ done
  pub created : world.has_state ≡ true
  pub uncleared : (world.wrote ≡ breaks) ⊎ (keeps_state world.cleanup ≡ true)

pub data IsLeft (world : Conditions) (disk : Listing) : Listing → Type 0 where
  tidy : (after : Listing) → IsDebris disk after → IsLeft world disk after
  marked :
      (name : String) (root : Root)
      → root.is_complete ≡ true
      → IsMarked world
      → IsLeft world disk (insert_root name root disk)

module _ (name : String) (disk : Listing) (free : Dict.get name disk ≡ none) where
  pub clean-absent : (c : Remains) → clean c name disk ≡ disk
  unfolding clean
  clean-absent removed = remove_absent name disk free
  clean-absent (remains d s) = replace_root-absent (part_of d s) name disk free

  pub clean-IsDebris :
      (c : Remains) (root : Root)
      → root.is_complete ≡ false
      → IsDebris disk (clean c name (insert_root name root disk))
  unfolding clean
  clean-IsDebris removed root h = rw (remove-insert_root name root disk free) same
  clean-IsDebris (remains d s) root h =
      rw (replace_root-insert_root (part_of d s) name root disk free)
        (debris name (part_of d s root) (ground (arith, h)))

  cleaned-IsLeft :
      (world : Conditions) (root : Root) (c : Remains)
      → root.is_complete ≡ true
      → (keeps_state c ≡ true → IsMarked world)
      → IsLeft world disk (clean c name (insert_root name root disk))
  unfolding clean
  cleaned-IsLeft world root removed h mark =
      rw (remove-insert_root name root disk free) (tidy disk same)
  cleaned-IsLeft world root (remains d true) h mark =
      rw (replace_root-insert_root (part_of d true) name root disk free)
        (marked name (part_of d true root) h (mark refl))
  cleaned-IsLeft world root (remains d false) h mark =
      rw (replace_root-insert_root (part_of d false) name root disk free)
        (tidy _ (debris name (part_of d false root) refl))

  pub unwritten-IsLeft :
      (world : Conditions) (root : Root)
      → root.is_complete ≡ true
      → world.wrote ≡ fails
      → world.has_state ≡ true
      → IsLeft world disk (clean world.cleanup name (insert_root name root disk))
  unwritten-IsLeft world root h is_fails created =
      cleaned-IsLeft world root world.cleanup h (λ keeps. record {
        unwritten = λ e. fails-ne-done (sym is_fails ∙ e);
        created = created;
        uncleared = inr keeps;
      })
