-- ===== src/Junit/Files.antt =====
-- file_registry.py: what the names of the report files tell, their order and their choice.
use mathlib.Core.Option
use dds_rtps.Prelude.{
  ℕ, Bool, List, Option, Text, [], codes, false, if◌then◌else◌, length, ltb, none, some, suc,
  text_eq, zero, ◌&&◌, ◌*◌, ◌++◌, ◌+◌, ◌-◌, ◌==◌, ◌||◌, ◌∷◌,
}
use dds_rtps.Child.{Outcome, raised, returned, value_error}
use dds_rtps.Junit.Results.{ReportElement}
use dds_rtps.Junit.Tables.{after_prefix}
use dds_rtps.Prelude.Sorting.{filter_list, sorted, text_leb}
use dds_rtps.Regex.{Pattern, chr, digit, one, search_text}
use dds_rtps.Texts.Edit.{is_filled, last_chars}

-- A report file: its path, the last part of it, and what is read from it
pub record ReportFile : Type 0 where
  pub path : Text
  pub file_name : Text
  pub root : ReportElement

-- The text before the last point, and whether there is one
before_point : Text → Option Text
before_point [] = none
before_point (c ∷ s) = elim (before_point s) [
  | some front ↦ some (c ∷ front)
  | none ↦ if c == b'.' then some [] else none
]

-- `path.stem`: without the suffix, if something stands on both sides of the last point
unfoldable pub stem_of : Text → Text
unfolding before_point
stem_of file_name = elim (before_point file_name) [
  | some front ↦
      if is_filled front && ltb (suc (length front)) (length file_name) then front else file_name
  | none ↦ file_name
]

pub record Meta : Type 0 where
  pub date : Text
  pub clock : Text
  pub parallel : ℕ
  pub duration_sec : ℕ
  pub runner : Option Text
  pub batch : Option ℕ
  pub sort_key : Text

-- `int` of digits
unfoldable pub digits_value : ℕ → Text → ℕ
digits_value n [] = n
digits_value n (c ∷ s) = digits_value (n * 10 + (c - b'0')) s

-- `\d{n}`, and the text behind it
unfoldable pub take_digits : ℕ → Text → Option (Text × Text)
unfolding digit
take_digits zero s = some ([], s)
take_digits (suc n) [] = none
take_digits (suc n) (c ∷ s) =
    if digit c then Option.map (λ r. (c ∷ r.0, r.1)) (take_digits n s) else none

-- The longest run of digits, and the text behind it
unfoldable pub digit_run : Text → Text × Text
unfolding digit
digit_run [] = ([], [])
digit_run (c ∷ s) = let more = digit_run s in if digit c then (c ∷ more.0, more.1) else ([], c ∷ s)

abbrev filled_run : Text × Text → Option (Text × Text)
filled_run ([], s) = none
filled_run (c ∷ ds, s) = some (c ∷ ds, s)

-- `\d+`, whose run is not given back, as no digit can follow it
abbrev some_digits : Text → Option (Text × Text)
some_digits s = filled_run (digit_run s)

-- `(?:-(\d+)sec)?`
optional_seconds : Text → Option Text × Text
unfolding after_prefix digit_run Option.bind
optional_seconds s =
    let r = Option.bind (after_prefix (codes "-") s) (λ t.
      Option.bind (some_digits t)
        (λ ds. Option.map (λ u. (some ds.0, u)) (after_prefix (codes "sec") ds.1))) in
    elim r [ some p ↦ p | none ↦ (none, s) ]

-- `(?:-(self-hosted|ubuntu))?`
optional_runner : Text → Option Text × Text
unfolding after_prefix
optional_runner s = elim (after_prefix (codes "-self-hosted") s) [
  | some u ↦ (some (codes "self-hosted"), u)
  | none ↦ elim (after_prefix (codes "-ubuntu") s) [
    | some u ↦ (some (codes "ubuntu"), u)
    | none ↦ (none, s)
  ]
]

-- `(?:-run(\d+))?`
optional_batch : Text → Option Text
unfolding after_prefix digit_run Option.bind
optional_batch s =
    Option.bind (after_prefix (codes "-run") s) (λ t. Option.map (λ ds. ds.0) (some_digits t))

abbrev read_meta : Text → Text → Text → Text → Text × Text → Meta
read_meta day month year hhmm (par, s) =
    let seconds = optional_seconds s in
    let run_by = optional_runner seconds.1 in
    let batch_text = optional_batch run_by.1 in
    record {
      date = day ++ (month ++ year);
      clock = hhmm;
      parallel = digits_value 0 par;
      duration_sec = elim seconds.0 [ some t ↦ digits_value 0 t | none ↦ 0 ];
      runner = run_by.0;
      batch = Option.map (digits_value 0) batch_text;
      sort_key = year ++ (month ++ (day ++ (b'-' ∷ hhmm)));
    }

-- A match that begins here
match_name : Text → Option Meta
unfolding after_prefix take_digits digit_run optional_seconds optional_runner optional_batch
    digits_value Option.bind
match_name [] = none
match_name (c ∷ s) =
    if c == b'-' || c == b'_'
    then Option.bind (take_digits 2 s) (λ day. Option.bind (take_digits 2 day.1) (λ month.
      Option.bind (take_digits 4 month.1) (λ year.
        Option.bind (after_prefix (codes "-") year.1) (λ t. Option.bind (take_digits 4 t) (λ hhmm.
          Option.bind (after_prefix (codes "-par") hhmm.1)
            (λ u. Option.map (read_meta day.0 month.0 year.0 hhmm.0) (some_digits u)))))))
    else none

search_name : Text → Option Meta
unfolding match_name
search_name [] = none
search_name (c ∷ s) = elim (match_name (c ∷ s)) [ some m ↦ some m | none ↦ search_name s ]

unfoldable pub parse_filename_meta : Text → Option Meta
unfolding search_name stem_of
parse_filename_meta file_name = search_name (stem_of file_name)

-- `\d{4}-\d{2}-\d{2}-\d{2}_\d{2}_\d{2}`
abbrev old_pattern : Pattern
old_pattern =
    one digit
    ∷ one digit
    ∷ one digit
    ∷ one digit
    ∷ chr b'-'
    ∷ one digit
    ∷ one digit
    ∷ chr b'-'
    ∷ one digit
    ∷ one digit
    ∷ chr b'-'
    ∷ one digit
    ∷ one digit
    ∷ chr b'_'
    ∷ one digit
    ∷ one digit
    ∷ chr b'_'
    ∷ one digit
    ∷ one digit
    ∷ []

-- `_file_sort_key`
unfoldable pub file_sort_key : Text → Text × Text
unfolding parse_filename_meta search_text stem_of
file_sort_key file_name = elim (parse_filename_meta file_name) [
  | some m ↦ (m.sort_key, file_name)
  | none ↦ elim (search_text old_pattern (stem_of file_name)) [
    | some found_text ↦ (found_text.whole, file_name)
    | none ↦ (file_name, [])
  ]
]

-- `report_label`; the date of an old name has to end the stem.
unfoldable pub report_label : Text → Text
unfolding parse_filename_meta search_text stem_of last_chars
report_label file_name = elim (parse_filename_meta file_name) [
  | some m ↦ m.date ++ (b'-' ∷ m.clock)
  | none ↦
      let stem = stem_of file_name in
      elim (search_text old_pattern (last_chars 19 stem)) [
        | some found_text ↦ found_text.whole
        | none ↦ stem
      ]
]

abbrev pub file_before : ReportFile → ReportFile → Bool
file_before a b =
    let ka = file_sort_key a.file_name in
    let kb = file_sort_key b.file_name in
    if text_eq ka.0 kb.0 then text_leb ka.1 kb.1 else text_leb ka.0 kb.0

is_of_batch : ℕ → ReportFile → Bool
unfolding parse_filename_meta
is_of_batch n f = elim (parse_filename_meta f.file_name) [
  | some m ↦ elim m.batch [ some b ↦ b == n | none ↦ false ]
  | none ↦ false
]

-- The files of the directory, in order, those of one batch where it is given
unfoldable pub choose_all_files : List ReportFile → Option ℕ → List ReportFile
unfolding sorted file_sort_key text_leb is_of_batch
choose_all_files directory none = sorted file_before directory
choose_all_files directory (some n) = filter_list (is_of_batch n) (sorted file_before directory)

last_two : List ReportFile → Outcome (ReportFile × ReportFile)
last_two [] = raised value_error
last_two (a ∷ []) = raised value_error
last_two (a ∷ b ∷ []) = returned (a, b)
last_two (a ∷ b ∷ c ∷ fs) = last_two (b ∷ c ∷ fs)

-- The two newest files; fewer are a ValueError.
unfoldable pub choose_files : List ReportFile → Option ℕ → Outcome (ReportFile × ReportFile)
unfolding choose_all_files last_two
choose_files directory batch = last_two (choose_all_files directory batch)
