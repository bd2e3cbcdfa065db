-- ===== src/Tables/IfStat/Request.antt =====
-- statApp/src/tblIFStat.cpp: the message that the constructor makes, as the kernel reads it.
use lin_stat.Base.{
  ℕ, suc, ◌+◌, ◌-◌, ◌%◌, ◌^◌, ◌<◌, ◌≡◌, refl, sym, ap, ◌∙◌, false, [], ◌∷◌, ◌++◌, some, is_empty,
  length, drop, length-append, append-nil, append_assoc, arith,
}
use lin_stat.Base.Text.{Bytes}
use lin_stat.Base.Buffer.{zeros, store, length-zeros, zeros-add, store-append, overlay-append}
use lin_stat.Tables.IfStat.Attributes.{Attr, walked, attrs_at, total, padded, encode}
use lin_stat.Tables.IfStat.Decode.{length-padded}
use lin_stat.Tables.IfStat.Message.{Netlink, NetlinkLaws, request_header, request_bytes}
use lin_stat.Tables.IfStat.Reply.{attrs_at-encode, drop_front}

-- A field written where zeros are.
store_field :
    (t s rest : Bytes) (n k : ℕ)
    → length t ≡ n
    → length s ≡ k
    → store n s (t ++ (zeros k ++ rest)) ≡ t ++ (s ++ rest)
store_field t s rest n k e f =
    ap (λ m. store m s (t ++ (zeros k ++ rest))) (sym e)
    ∙ store-append s t (zeros k ++ rest)
    ∙ ap (λ b. t ++ b) (overlay-append s (zeros k) rest (omega (arith, length-zeros k, f)))

-- The one attribute of a request: the name of the interface and its nil.
abbrev pub name_attr : Netlink → Bytes → Attr
name_attr nl inst = record { kind = nl.ifname; body = inst ++ 0 ∷ [] }

module _ (nl : Netlink) (laws : NetlinkLaws nl) (inst : Bytes) where
  abbrev rta_len : ℕ
  rta_len = nl.rta.hdr + (length inst + 1)

  abbrev attr : Attr
  attr = name_attr nl inst

  abbrev front : ℕ
  front = nl.hdr_len + nl.info_len

  abbrev size : ℕ
  size = front + nl.rta.align rta_len

  abbrev pad : Bytes
  pad = zeros (nl.rta.align rta_len - rta_len)

  -- What stands before the attribute.
  abbrev before : Bytes
  before = nl.header (request_header nl size) nl.ask_flags ++ zeros nl.info_len

  total_lem : total nl.rta attr ≡ rta_len
  total_lem = omega (arith, length-append inst (0 ∷ []))

  length-before : length before ≡ front
  length-before = omega (
    arith,
    length-append (nl.header (request_header nl size) nl.ask_flags) (zeros nl.info_len),
    laws.length-header (request_header nl size) nl.ask_flags,
    length-zeros nl.info_len,
  )

  zeros_lem :
      zeros size
      ≡ zeros nl.hdr_len
        ++ (zeros nl.info_len ++ (zeros nl.rta.hdr ++ (zeros (length inst) ++ (0 ∷ pad))))
  zeros_lem =
      let k = nl.rta.align rta_len - rta_len in
      let parts : size ≡ nl.hdr_len + (nl.info_len + (nl.rta.hdr + (length inst + suc k))) =
        omega (arith, laws.rta.covers rta_len) in
      ap zeros parts
      ∙ zeros-add nl.hdr_len (nl.info_len + (nl.rta.hdr + (length inst + suc k)))
      ∙ ap (λ b. zeros nl.hdr_len ++ b)
          (zeros-add nl.info_len (nl.rta.hdr + (length inst + suc k))
            ∙ ap (λ b. zeros nl.info_len ++ b)
                (zeros-add nl.rta.hdr (length inst + suc k)
                  ∙ ap (λ b. zeros nl.rta.hdr ++ b) (zeros-add (length inst) (suc k))))

  abbrev head : Bytes
  head = nl.rta.head nl.ifname (rta_len % 2 ^ 16)

  header_stored :
      store 0 (nl.header (request_header nl size) nl.ask_flags) (zeros size)
      ≡ before ++ (zeros nl.rta.hdr ++ (zeros (length inst) ++ (0 ∷ pad)))
  header_stored =
      let h = nl.header (request_header nl size) nl.ask_flags in
      let behind = zeros nl.rta.hdr ++ (zeros (length inst) ++ (0 ∷ pad)) in
      ap (store 0 h) zeros_lem
      ∙ store_field [] h (zeros nl.info_len ++ behind) 0 nl.hdr_len refl
          (laws.length-header (request_header nl size) nl.ask_flags)
      ∙ sym (append_assoc h (zeros nl.info_len) behind)

  name_stored :
      store
        (front + nl.rta.hdr)
        inst
        (store front head (store 0 (nl.header (request_header nl size) nl.ask_flags) (zeros size)))
      ≡ before ++ (head ++ (inst ++ (0 ∷ pad)))
  name_stored =
      let unnamed = zeros (length inst) ++ (0 ∷ pad) in
      let start : length (before ++ head) ≡ front + nl.rta.hdr = omega (
        arith,
        length-append before head,
        length-before,
        laws.rta.length-head nl.ifname (rta_len % 2 ^ 16),
      ) in
      ap (λ b. store (front + nl.rta.hdr) inst (store front head b)) header_stored
      ∙ ap (store (front + nl.rta.hdr) inst) (
          store_field before head unnamed front nl.rta.hdr length-before
            (laws.rta.length-head nl.ifname (rta_len % 2 ^ 16))
          ∙ sym (append_assoc before head unnamed))
      ∙ store_field (before ++ head) inst (0 ∷ pad) (front + nl.rta.hdr) (length inst) start refl
      ∙ append_assoc before head (inst ++ (0 ∷ pad))

  attr_lem : rta_len < 2 ^ 16 → head ++ (inst ++ (0 ∷ pad)) ≡ encode nl.rta (attr ∷ [])
  attr_lem fit =
      let named = inst ++ 0 ∷ [] in
      let n : rta_len % 2 ^ 16 ≡ total nl.rta attr = omega (arith, total_lem) in
      let whole : head ++ (inst ++ (0 ∷ pad)) ≡ (head ++ named) ++ pad =
        ap (λ b. head ++ b) (sym (append_assoc inst (0 ∷ []) pad))
        ∙ sym (append_assoc head named pad) in
      whole
      ∙ ap (λ k. (nl.rta.head nl.ifname k ++ named) ++ pad) n
      ∙ ap (λ k. (nl.rta.head nl.ifname (total nl.rta attr) ++ named) ++ zeros (nl.rta.align k - k))
          (sym total_lem)
      ∙ sym (append-nil (padded nl.rta attr))

  -- For an interface with a name that its length in 16 bits can tell, the message's header has the
  -- size of the message, and the attributes behind it are the one with the whole name and its nil.
  pub request_bytes_lem :
      is_empty inst ≡ false
      → rta_len < 2 ^ 16
      → (msg : Bytes) × (request_bytes nl inst ≡ some msg)
        × (nl.read_header msg ≡ record { len = length msg; kind = nl.get_link; seq = 0; pid = 0 })
        × (attrs_at nl.rta
              (drop (nl.hdr_len + nl.info_len) msg)
              (length msg - (nl.hdr_len + nl.info_len))
            ≡ walked (name_attr nl inst ∷ []))
  unfolding request_bytes request_header
  request_bytes_lem ne fit =
      let content = encode nl.rta (attr ∷ []) in
      let header = request_header nl size in
      let made : request_bytes nl inst ≡ some (before ++ content) =
        rw ne (ap some (name_stored ∙ ap (λ b. before ++ b) (attr_lem fit))) in
      let padding = laws.rta.near rta_len in
      let content_size : length content ≡ nl.rta.align rta_len = omega (
        arith,
        length-append (padded nl.rta attr) [],
        length-padded nl.rta laws.rta attr,
        ap nl.rta.align total_lem,
      ) in
      let msg_size : size % 2 ^ 32 ≡ length (before ++ content) = omega (
        arith,
        length-append before content,
        length-before,
        content_size,
        padding,
        laws.small_hdr,
        laws.small_info,
      ) in
      let left : length (before ++ content) - front ≡ length content =
        omega (arith, length-append before content, length-before) in
      (
        before ++ content,
        made,
        ap nl.read_header (append_assoc (nl.header header nl.ask_flags) (zeros nl.info_len) content)
            ∙ laws.read-header header nl.ask_flags (zeros nl.info_len ++ content)
                (omega arith, laws.small_get, omega arith, omega arith)
            ∙ ap (λ n. record { len = n; kind = nl.get_link; seq = 0; pid = 0 }) msg_size,
        ap (λ b. attrs_at nl.rta b (length (before ++ content) - front))
              (drop_front before content length-before)
            ∙ ap (attrs_at nl.rta content) left
            ∙ ap (λ b. attrs_at nl.rta b (length content)) (sym (append-nil content))
            ∙ attrs_at-encode nl.rta laws.rta (attr ∷ []) []
                ((laws.small_ifname, omega (arith, total_lem)), tt)
                (omega (arith, content_size, padding)),
      )
