-- ===== src/Server/Framing/Init.antt =====
-- The negotiation of the protocol in src/server.rs leaves a frame.
use virtiofsd.Common.{ℕ, zero, suc, ◌/◌, ◌+◌, ◌≤◌, ◌≡◌, none, Bool, List, arith}
use native.Mathlib.Nat.{div-le_of_le-mul}
use virtiofsd.Common.Io.{done}
use virtiofsd.FileSystem.{FileSystem}
use virtiofsd.Fuse.Requests.{InHeader, InitInCompat}
use virtiofsd.Server.Reply.{Host}
use virtiofsd.Server.Init.{max_pages, accept, unwrapped, negotiate, check_version, handle_init}
use virtiofsd.Server.Framing.{Framed, Framed-reply_ok, Framed-answer, framing_rules}

-- Pages of at least 17 bytes give a number of pages that fits.
max_pages-done : (n : ℕ) → 17 ≤ n → (pages : ℕ) × (max_pages n ≡ done pages)
unfolding max_pages
max_pages-done zero h = absurd (omega arith)
max_pages-done (suc n) h =
    let few : 1048575 / suc n ≤ 61681 = div-le_of_le-mul (suc n) (omega arith) in
    ((1048575 / suc n + 1), ground arith)

module _ (fs : FileSystem) (host : Host) {quiet : Bool} (h : InHeader) where
  Framed-accept :
      (max_readahead pages capable want : ℕ)
      → Framed quiet h.unique (accept fs host h.unique max_readahead pages capable want)
  unfolding accept
  Framed-accept max_readahead pages capable want = record {
    at = λ s. (Framed-reply_ok _ none).at _;
  }

  Framed-negotiate :
      (m : InitInCompat) (flags2 : ℕ)
      → 17 ≤ host.page_size
      → Framed quiet h.unique (negotiate fs host h.unique m flags2)
  unfolding negotiate unwrapped
  Framed-negotiate m flags2 big =
      let (pages, e) = max_pages-done host.page_size big in
      rw e (Framed-answer host _ _ (λ want. Framed-accept _ _ _ want))

  pub Framed-init :
      (r : List ℕ) → 17 ≤ host.page_size → Framed quiet h.unique (handle_init fs host h r)
  unfolding handle_init check_version
  Framed-init r big = search (Framed-negotiate, framing_rules) depth 12
