-- ===== src/T123/Structure.antt =====
-- The structural inspection of a code record (src/adapters/t123-code-helper.ts). Each scan goes over
-- the text once; `skip` units are passed over, as the source's cursor passes over a token.
use tilda_mcp.Prelude.{
  ℕ, zero, suc, ◌+◌, ◌-◌, String, List, [], ◌∷◌, ◌++◌, Bool, true, false, ◌&&◌, ◌||◌, not, ltb, leb,
  eqb, length, if◌then◌else◌, Option, none, some,
}
use tilda_mcp.T123.Data.{
  Text16, Helped, done, refuse_if, ◌>>=◌, ◌>>◌, structural_damage, assert_bounded_text, starts,
  units,
}

pub data T123StructureIssueCode : Type 0 where
  nul_character stray_html_comment_close unclosed_html_comment : T123StructureIssueCode
  unclosed_tag_declaration script_tag_unbalanced style_tag_unbalanced : T123StructureIssueCode

pub record T123StructureIssue : Type 0 where
  pub code : T123StructureIssueCode
  pub offset : ℕ

pub data TagName : Type 0 where
  script style : TagName

abbrev issue : T123StructureIssueCode → ℕ → T123StructureIssue
issue c n = record { code = c; offset = n }

abbrev unbalanced : TagName → T123StructureIssueCode
unbalanced script = script_tag_unbalanced
unbalanced style = style_tag_unbalanced

unfoldable pub ascii_lower : Text16 → Text16
ascii_lower [] = []
ascii_lower (c ∷ cs) =
    let rest = ascii_lower cs in (if leb 65 c && leb c 90 then c + 32 else c) ∷ rest

-- Space, tab, line ends and form feed.
abbrev pub is_space : ℕ → Bool
is_space c = eqb c 32 || eqb c 9 || eqb c 13 || eqb c 10 || eqb c 12

-- The first NUL.
unfoldable pub nul_issues : ℕ → Text16 → List T123StructureIssue
nul_issues offset [] = []
nul_issues offset (c ∷ cs) =
    let rest = nul_issues (offset + 1) cs in
    if eqb c 0 then issue nul_character offset ∷ [] else rest

abbrev comment_open : Text16
comment_open = b'<' ∷ b'!' ∷ b'-' ∷ b'-' ∷ []

abbrev comment_close : Text16
comment_close = b'-' ∷ b'-' ∷ b'>' ∷ []

-- Outside of comments, or inside the one that opened at an offset.
pub data CommentMode : Type 0 where
  outside_comment : CommentMode
  inside_comment : ℕ → CommentMode

unfoldable pub comment_issues : CommentMode → ℕ → ℕ → Text16 → List T123StructureIssue
comment_issues outside_comment skip offset [] = []
comment_issues (inside_comment open_at) skip offset [] = issue unclosed_html_comment open_at ∷ []
comment_issues mode (suc skip) offset (c ∷ cs) = comment_issues mode skip (offset + 1) cs
comment_issues outside_comment zero offset (c ∷ cs) = elim (starts comment_close (c ∷ cs)) [
  | true ↦ issue stray_html_comment_close offset ∷ comment_issues outside_comment 2 (offset + 1) cs
  | false ↦
      comment_issues
        (if starts comment_open (c ∷ cs) then inside_comment offset else outside_comment)
        (if starts comment_open (c ∷ cs) then 3 else 0) (offset + 1) cs
]
comment_issues (inside_comment open_at) zero offset (c ∷ cs) =
    elim (starts comment_close (c ∷ cs)) [
      | true ↦ comment_issues outside_comment 2 (offset + 1) cs
      | false ↦ comment_issues (inside_comment open_at) zero (offset + 1) cs
    ]

-- The unit after a token says whether the token is a tag.
abbrev is_boundary : Text16 → Bool
is_boundary [] = false
is_boundary (c ∷ cs) = eqb c b'>' || eqb c b'/' || is_space c

-- What follows the token of a tag.
unfoldable pub bounded_after : ℕ → Text16 → Bool
bounded_after zero cs = is_boundary cs
bounded_after (suc n) [] = false
bounded_after (suc n) (c ∷ cs) = bounded_after n cs

unfoldable pub opening : TagName → Text16
opening script = units "<script"
opening style = units "<style"

unfoldable pub closing : TagName → Text16
closing script = units "</script"
closing style = units "</style"

-- Between tags, or inside the declaration of one: where it opened, whether it closes an element,
-- the quotation mark that is open, and the last unit so far that is not a space.
pub data TagMode : Type 0 where
  between_tags : TagMode
  in_tag : ℕ → Bool → Option ℕ → ℕ → TagMode

-- The tokens of opening tags that are not closed yet, the last one first.
abbrev left_open : TagName → List ℕ → List T123StructureIssue
left_open tag [] = []
left_open tag (o ∷ os) = issue (unbalanced tag) o ∷ left_open tag os

abbrev after_quote : ℕ → ℕ → Option ℕ
after_quote quote c = if eqb c quote then none else some quote

abbrev is_quote : ℕ → Bool
is_quote c = eqb c 34 || eqb c b'\''

abbrev last_unit : ℕ → ℕ → ℕ
last_unit last c = if is_space c then last else c

-- The stack after a tag: a closing tag takes the last one off, and a tag that ends in `/>` is not
-- put on.
abbrev stack_after : Bool → ℕ → ℕ → List ℕ → List ℕ
stack_after true offset last [] = []
stack_after true offset last (o ∷ os) = os
stack_after false offset last os = if eqb last b'/' then os else offset ∷ os

abbrev stray : TagName → Bool → ℕ → List ℕ → List T123StructureIssue
stray tag true offset [] = issue (unbalanced tag) offset ∷ []
stray tag closes offset os = []

-- What one unit does: the issues that it shows, and how the scan goes on.
pub record TagStep : Type 0 where
  pub issues : List T123StructureIssue
  pub mode : TagMode
  pub stack : List ℕ
  pub skip : ℕ

abbrev go_on : TagMode → List ℕ → ℕ → TagStep
go_on mode os skip = record { issues = []; mode = mode; stack = os; skip = skip }

-- A token at this offset: the declaration of a tag, or a text that only looks like one.
abbrev token_step : Bool → Text16 → ℕ → Text16 → List ℕ → TagStep
token_step closes token offset cs os =
    if bounded_after (length token) cs
    then go_on (in_tag offset closes none b'e') os (length token - 1)
    else go_on between_tags os (length token - 1)

abbrev between_step : TagName → ℕ → Text16 → List ℕ → TagStep
between_step tag offset cs os =
    if starts (closing tag) cs
    then token_step true (closing tag) offset cs os
    else if starts (opening tag) cs
    then token_step false (opening tag) offset cs os
    else go_on between_tags os 0

abbrev in_tag_step : TagName → ℕ → Bool → Option ℕ → ℕ → ℕ → List ℕ → TagStep
in_tag_step tag open_at closes (some quote) last c os =
    go_on (in_tag open_at closes (after_quote quote c) (last_unit last c)) os 0
in_tag_step tag open_at closes none last c os =
    if is_quote c
    then go_on (in_tag open_at closes (some c) (last_unit last c)) os 0
    else if eqb c b'>'
    then record {
      issues = stray tag closes open_at os;
      mode = between_tags;
      stack = stack_after closes open_at last os;
      skip = 0;
    }
    else go_on (in_tag open_at closes none (last_unit last c)) os 0

abbrev tag_step : TagName → TagMode → ℕ → ℕ → Text16 → List ℕ → TagStep
tag_step tag between_tags offset c cs os = between_step tag offset (c ∷ cs) os
tag_step tag (in_tag open_at closes quote last) offset c cs os =
    in_tag_step tag open_at closes quote last c os

-- `trackedTagIssues`, over the text in lower case: the marks that end a tag have no case.
unfoldable pub tag_issues : TagName → TagMode → List ℕ → ℕ → ℕ → Text16 → List T123StructureIssue
unfolding bounded_after opening closing
tag_issues tag between_tags os skip offset [] = left_open tag os
tag_issues tag (in_tag open_at closes quote last) os skip offset [] =
    issue unclosed_tag_declaration open_at ∷ left_open tag os
tag_issues tag mode os (suc skip) offset (c ∷ cs) = tag_issues tag mode os skip (offset + 1) cs
tag_issues tag mode os zero offset (c ∷ cs) =
    let s = tag_step tag mode offset c cs os in
    s.issues ++ tag_issues tag s.mode s.stack s.skip (offset + 1) cs

abbrev code_name : T123StructureIssueCode → String
code_name nul_character = "NUL_CHARACTER"
code_name stray_html_comment_close = "STRAY_HTML_COMMENT_CLOSE"
code_name unclosed_html_comment = "UNCLOSED_HTML_COMMENT"
code_name unclosed_tag_declaration = "UNCLOSED_TAG_DECLARATION"
code_name script_tag_unbalanced = "SCRIPT_TAG_UNBALANCED"
code_name style_tag_unbalanced = "STYLE_TAG_UNBALANCED"

-- `locale_le` is `localeCompare(…) <= 0`, of the platform.
module _ (locale_le : String → String → Bool) where
  issue_le : T123StructureIssue → T123StructureIssue → Bool
  issue_le a b =
      ltb a.offset b.offset
      || (eqb a.offset b.offset && locale_le (code_name a.code) (code_name b.code))

  insert_issue : T123StructureIssue → List T123StructureIssue → List T123StructureIssue
  unfolding issue_le
  insert_issue x [] = x ∷ []
  insert_issue x (y ∷ ys) =
      let rest = insert_issue x ys in if issue_le x y then x ∷ y ∷ ys else y ∷ rest

  sort_issues : List T123StructureIssue → List T123StructureIssue
  unfolding insert_issue
  sort_issues [] = []
  sort_issues (x ∷ xs) = insert_issue x (sort_issues xs)

  unfoldable pub inspect_t123_structure : Text16 → Helped (List T123StructureIssue)
  unfolding sort_issues tag_issues comment_issues nul_issues ascii_lower
  inspect_t123_structure value = do
    assert_bounded_text value
    let lower = ascii_lower value
    done (
        sort_issues (
          nul_issues 0 value
          ++ (comment_issues outside_comment zero 0 value
              ++ (tag_issues script between_tags [] zero 0 lower
                  ++ tag_issues style between_tags [] zero 0 lower))))

  abbrev is_sound : List T123StructureIssue → Bool
  is_sound [] = true
  is_sound (x ∷ xs) = false

  unfoldable pub assert_safe_structure : Text16 → Helped (Unit {0})
  unfolding inspect_t123_structure
  assert_safe_structure code = do
    issues ← inspect_t123_structure code
    refuse_if (not (is_sound issues)) structural_damage
