-- ===== src/Junit/Groups/Placing.antt =====
-- Which files a group holds.
use dds_rtps.Prelude.{
  ℕ, ==_iff, Bool, Bool-cases, List, Option, [], ap, append-nil, append_assoc, arith, false,
  if◌then◌else◌, inl, inr, none, refl, some, sym, true, ◌++◌, ◌==◌, ◌∙◌, ◌∷◌, ◌≡◌,
}
use dds_rtps.Junit.Files.{Meta, ReportFile, parse_filename_meta}
use dds_rtps.Junit.Groups.{Grouping, add_to_group, place_file, place_files}
use dds_rtps.Prelude.Sorting.{filter_list}

-- The files of the group with a count
abbrev pub group_files : ℕ → List (ℕ × List ReportFile) → List ReportFile
group_files n [] = []
group_files n ((m, fs) ∷ gs) = if n == m then fs else group_files n gs

abbrev pub has_count : ℕ → Option Meta → Bool
has_count n none = false
has_count n (some m) = n == m.parallel

abbrev pub is_none : Option Meta → Bool
is_none none = true
is_none (some m) = false

-- The file of a list of one, if it passes a test
abbrev one_where : Bool → ReportFile → List ReportFile
one_where b f = if b then f ∷ [] else []

add_to_group-files :
    (n k : ℕ) (f : ReportFile) (gs : List (ℕ × List ReportFile))
    → group_files n (add_to_group k f gs) ≡ group_files n gs ++ one_where (n == k) f
unfolding add_to_group
add_to_group-files n k f [] = refl
add_to_group-files n k f ((m, fs) ∷ gs) = elim (Bool-cases (k == m)) [
  | inl e ↦
      let same : k ≡ m = (==_iff k m).0 e in
      rw (e, same)
        (elim (Bool-cases (n == m)) [
          | inl h ↦ rw h refl
          | inr h ↦ rw h (sym (append-nil (group_files n gs)))
        ])
  | inr e ↦ rw e (elim (Bool-cases (n == m)) [
    | inl h ↦
        let other : (n == k) ≡ false = differs n m k h e in rw (h, other) (sym (append-nil fs))
    | inr h ↦ rw h (add_to_group-files n k f gs)
  ])
]
  where
    differs : (n m k : ℕ) → (n == m) ≡ true → (k == m) ≡ false → (n == k) ≡ false
    differs n m k h e = ground arith

place_file-files :
    (n : ℕ) (o : Option Meta) (f : ReportFile) (g : Grouping)
    → (group_files n (place_file o f g).by_count
        ≡ group_files n g.by_count ++ one_where (has_count n o) f)
      × ((place_file o f g).ungrouped ≡ g.ungrouped ++ one_where (is_none o) f)
unfolding place_file
place_file-files n (some m) f g =
    (add_to_group-files n m.parallel f g.by_count, sym (append-nil g.ungrouped))
place_file-files n none f g = (sym (append-nil (group_files n g.by_count)), refl)

one_where-filter :
    (p : ReportFile → Bool) (f : ReportFile) (files front : List ReportFile)
    → (front ++ one_where (p f) f) ++ filter_list p files ≡ front ++ filter_list p (f ∷ files)
one_where-filter p f files front = elim (Bool-cases (p f)) [
  | inl e ↦ rw e (append_assoc front (f ∷ []) (filter_list p files))
  | inr e ↦ rw e (ap (λ l. l ++ filter_list p files) (append-nil front))
]

place_files-files :
    (n : ℕ) (files : List ReportFile) (g : Grouping)
    → (group_files n (place_files files g).by_count
        ≡ group_files n g.by_count
          ++ filter_list (λ f. has_count n (parse_filename_meta f.file_name)) files)
      × ((place_files files g).ungrouped
          ≡ g.ungrouped ++ filter_list (λ f. is_none (parse_filename_meta f.file_name)) files)
unfolding place_files
place_files-files n [] g =
    (sym (append-nil (group_files n g.by_count)), sym (append-nil g.ungrouped))
place_files-files n (f ∷ files) g =
    let o = parse_filename_meta f.file_name in
    let (x, y) = place_file-files n o f g in
    let (z, w) = place_files-files n files (place_file o f g) in
    (
      z
          ∙ ap (λ l. l ++ filter_list (λ f'. has_count n (parse_filename_meta f'.file_name)) files)
              x
          ∙ one_where-filter (λ f'. has_count n (parse_filename_meta f'.file_name)) f files
              (group_files n g.by_count),
      w
          ∙ ap (λ l. l ++ filter_list (λ f'. is_none (parse_filename_meta f'.file_name)) files) y
          ∙ one_where-filter (λ f'. is_none (parse_filename_meta f'.file_name)) f files g.ungrouped,
    )

-- The group of a number of parallel runs holds the files whose names tell this number, in the order of
-- the list, and the files that are left over are those whose names have not the new format.
pub place_files-groups :
    (n : ℕ) (files : List ReportFile)
    → (group_files n (place_files files (record { by_count = []; ungrouped = [] })).by_count
        ≡ filter_list (λ f. has_count n (parse_filename_meta f.file_name)) files)
      × ((place_files files (record { by_count = []; ungrouped = [] })).ungrouped
          ≡ filter_list (λ f. is_none (parse_filename_meta f.file_name)) files)
place_files-groups n files = place_files-files n files (record { by_count = []; ungrouped = [] })
