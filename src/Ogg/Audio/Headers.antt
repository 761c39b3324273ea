-- ===== src/Ogg/Audio/Headers.antt =====
-- Which pages the comment header is read from.
use live_translation.Common.{
  ◌≡◌, refl, sym, ap, ◌∙◌, Bool, true, false, ◌&&◌, List, [], ◌∷◌, ◌++◌, none, some, arith, ◌==◌,
  inl, inr, Bool-cases, Option-cases,
}
use live_translation.Ogg.Bytes.{starts_with}
use live_translation.Ogg.Page.{Page}
use live_translation.Ogg.CommentHeader.{opus_tags}
use live_translation.Ogg.Audio.{is_fresh, continued_pages, comment_header_pages}

-- No page of the list begins a new packet.
abbrev pub AllContinued : List Page → Type 0
AllContinued [] = Unit {0}
AllContinued (p ∷ ps) = (is_fresh p ≡ false) × AllContinued ps

abbrev pub begins_comment_header : Page → Bool
begins_comment_header p = p.page_sequence_number == 1 && starts_with p.page_data opus_tags

-- Continued pages, then the page that begins the next packet.
pub record Run (pages found : List Page) : Type 0 where
  pub middle : List Page
  pub last : Page
  pub after : List Page
  pub cut : found ≡ middle ++ last ∷ []
  pub placed : pages ≡ found ++ after
  pub continued : AllContinued middle
  pub fresh : is_fresh last ≡ true

-- The pages `before` the header, its first page `tags`, and the run behind that page.
pub record HeaderRun (pages found : List Page) : Type 0 where
  pub before : List Page
  pub tags : Page
  pub tail : List Page
  pub others : List Page
  pub cut : found ≡ tags ∷ tail
  pub placed : pages ≡ before ++ tags ∷ others
  pub begins : begins_comment_header tags ≡ true
  pub run : Run others tail

continued_pages-Run :
    (pages found : List Page) → continued_pages pages ≡ some found → Run pages found
unfolding continued_pages
continued_pages-Run [] found e = cc
continued_pages-Run (p ∷ ps) found e = elim (Bool-cases (is_fresh p)) [
  | inl fresh ↦ record {
    middle = [];
    last = p;
    after = ps;
    cut = ground arith;
    placed = ground arith;
    continued = tt;
    fresh = fresh;
  }
  | inr more ↦ elim (Option-cases (continued_pages ps)) [
    | inl missing ↦ absurd (ground arith)
    | inr (rest, e') ↦
        let r = continued_pages-Run ps rest e' in
        let found_eq : found ≡ p ∷ rest = ground arith in
        record {
          middle = p ∷ r.middle;
          last = r.last;
          after = r.after;
          cut = found_eq ∙ ap (◌∷◌ p) r.cut;
          placed = ap (◌∷◌ p) r.placed ∙ sym (ap (λ t. t ++ r.after) found_eq);
          continued = (more, r.continued);
          fresh = r.fresh;
        }
  ]
]

-- The pages that the comment header is read from stand together in the stream: a page with
-- sequence number 1 that starts with `OpusTags`, the pages after it that continue a packet, and
-- one more page, which begins the next packet.
pub comment_header_pages-HeaderRun :
    (pages found : List Page) → comment_header_pages pages ≡ some found → HeaderRun pages found
unfolding comment_header_pages
comment_header_pages-HeaderRun [] found e = cc
comment_header_pages-HeaderRun (p ∷ ps) found e = elim (Bool-cases (begins_comment_header p)) [
  | inl begins ↦ elim (Option-cases (continued_pages ps)) [
    | inl missing ↦ absurd (ground arith)
    | inr (rest, e') ↦ record {
      before = [];
      tags = p;
      tail = rest;
      others = ps;
      cut = ground arith;
      placed = refl;
      begins = begins;
      run = continued_pages-Run ps rest e';
    }
  ]
  | inr other ↦
      let r = comment_header_pages-HeaderRun ps found (ground arith) in
      record {
        before = p ∷ r.before;
        tags = r.tags;
        tail = r.tail;
        others = r.others;
        cut = r.cut;
        placed = ap (◌∷◌ p) r.placed;
        begins = r.begins;
        run = r.run;
      }
]

none_continued : (pages : List Page) → AllContinued pages → continued_pages pages ≡ none
unfolding continued_pages
none_continued [] h = refl
none_continued (p ∷ ps) h = ground (arith, none_continued ps h.1)

-- A comment header that is complete, but has no page of another packet behind it, is not found.
comment_header_pages-unended :
    (tags : Page) (pages : List Page)
    → begins_comment_header tags ≡ true
    → AllContinued pages
    → comment_header_pages (tags ∷ pages) ≡ none
unfolding comment_header_pages
comment_header_pages-unended tags pages b h = rw (b, none_continued pages h)
