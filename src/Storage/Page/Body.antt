-- ===== src/Storage/Page/Body.antt =====
-- The body of a page of ferrite-storage/src/page.rs under the writes of its bytes.
use ferrite.Prelude.{
  ℕ, ◌+◌, ◌≤◌, ◌<◌, ◌≡◌, ◌≢◌, refl, ◌∙◌, [], ◌∷◌, arith, length, set, get_or, length-set,
  length-replicate, get_or-replicate, get_or-set_self, get_or-set_ne, ◌==◌, if◌then◌else◌,
  Bool-cases, inl, inr,
}
use ferrite.Storage.Codec.Reader.{Bytes}
use ferrite.Storage.Codec.Writer.{to_le}
use ferrite.Storage.Page.{
  page_size, header_size, PageKind, to_u8, Page, copy_at, set_kind, set_free_end, zeros, new,
  body_at, set_body,
}

length-copy_at : (i : ℕ) (more bytes : Bytes) → length (copy_at i more bytes) ≡ length bytes
unfolding copy_at
length-copy_at i [] bytes = refl
length-copy_at i (d ∷ more) bytes =
    length-copy_at (i + 1) more (set bytes i d) ∙ length-set bytes i d

get_or-copy_at :
    (i j : ℕ) (more bytes : Bytes)
    → i + length more ≤ j
    → get_or (copy_at i more bytes) j 0 ≡ get_or bytes j 0
unfolding copy_at
get_or-copy_at i j [] bytes h = refl
get_or-copy_at i j (d ∷ more) bytes h =
    get_or-copy_at (i + 1) j more (set bytes i d) (omega arith)
    ∙ get_or-set_ne bytes i j d 0 (omega arith)

length-zeros : (n : ℕ) → length (zeros n) ≡ n
unfolding zeros
length-zeros n = length-replicate n 0

get_or-zeros : (n i : ℕ) → get_or (zeros n) i 0 ≡ 0
unfolding zeros
get_or-zeros n i = get_or-replicate n i 0

pub length-new : (kind : PageKind) → length (new kind).bytes ≡ page_size
unfolding new set_free_end set_kind
length-new kind =
    length-copy_at 16 (to_le 2 page_size) (set (zeros page_size) 12 (to_u8 kind))
    ∙ length-set (zeros page_size) 12 (to_u8 kind)
    ∙ length-zeros page_size

-- The body of a new page is all zeros.
pub body_at-new : (kind : PageKind) (j : ℕ) → body_at (new kind) j ≡ 0
unfolding new set_free_end set_kind body_at to_le
body_at-new kind j =
    get_or-copy_at 16 (header_size + j) (to_le 2 page_size) (set (zeros page_size) 12 (to_u8 kind))
      (omega arith)
    ∙ get_or-set_ne (zeros page_size) 12 (header_size + j) (to_u8 kind) 0 (omega arith)
    ∙ get_or-zeros page_size (header_size + j)

pub length-set_body : (p : Page) (i v : ℕ) → length (set_body p i v).bytes ≡ length p.bytes
unfolding set_body
length-set_body p i v = length-set p.bytes (header_size + i) v

pub body_at-set_body :
    (p : Page) (i j v : ℕ)
    → header_size + i < length p.bytes
    → body_at (set_body p i v) j ≡ (if i == j then v else body_at p j)
unfolding body_at set_body
body_at-set_body p i j v h = elim (Bool-cases (i == j)) [
  | inl e ↦
      let same : i ≡ j = ground arith in
      rw e (rw (← same) (get_or-set_self p.bytes (header_size + i) v 0 h))
  | inr e ↦
      let apart : header_size + i ≢ header_size + j = ground arith in
      rw e (get_or-set_ne p.bytes (header_size + i) (header_size + j) v 0 apart)
]
