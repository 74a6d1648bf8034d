-- ===== src/Storage/Page.antt =====
-- ferrite-storage/src/page.rs: the 8 KiB page as its bytes, with the header fields.
pub mod Body
use ferrite.Prelude.{
  ℕ, zero, suc, ◌+◌, List, [], ◌∷◌, ◌++◌, length, take, drop, replicate, set, get_or,
}
use ferrite.Common.Error.{Message, storage, Result, ok, err}
use ferrite.Storage.Codec.Reader.{Bytes, from_le}
use ferrite.Storage.Codec.Writer.{to_le}

abbrev pub page_size : ℕ
page_size = 8192

abbrev pub header_size : ℕ
header_size = 24

-- Page 0 is the meta page, so 0 also stands for "no page".
abbrev pub meta_page : ℕ
meta_page = 0

abbrev pub no_page : ℕ
no_page = 0

pub data PageKind : Type 0 where
  meta leaf internal overflow table_header clog free : PageKind

abbrev pub to_u8 : PageKind → ℕ
to_u8 meta = 0
to_u8 leaf = 1
to_u8 internal = 2
to_u8 overflow = 3
to_u8 table_header = 4
to_u8 clog = 5
to_u8 free = 6

pub record Page : Type 0 where
  pub bytes : Bytes

-- `bytes[at..at + data.len()].copy_from_slice(data)`
pub copy_at : ℕ → Bytes → Bytes → Bytes
copy_at i [] bytes = bytes
copy_at i (d ∷ more) bytes = copy_at (i + 1) more (set bytes i d)

pub set_kind : Page → PageKind → Page
set_kind p kind = record { bytes = set p.bytes 12 (to_u8 kind) }

pub set_free_end : Page → ℕ → Page
set_free_end p v = record { bytes = copy_at 16 (to_le 2 v) p.bytes }

-- `[0u8; n]`
pub zeros : ℕ → Bytes
zeros n = replicate n 0

pub new : PageKind → Page
new kind = set_free_end (set_kind (record { bytes = zeros page_size }) kind) page_size

abbrev pub extra : Page → ℕ
extra p = from_le (take 4 (drop 20 p.bytes))

abbrev pub set_extra : Page → ℕ → Page
set_extra p v = record { bytes = copy_at 20 (to_le 4 v) p.bytes }

-- `body()[i]`, and a write of it.
pub body_at : Page → ℕ → ℕ
body_at p i = get_or p.bytes (header_size + i) 0

pub set_body : Page → ℕ → ℕ → Page
set_body p i v = record { bytes = set p.bytes (header_size + i) v }
