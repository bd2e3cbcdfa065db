-- ===== src/Tables/Ethtool/Request.antt =====
-- statApp/src/tblEthtool.cpp: the name of the interface in each request, send_ioctl().
use lin_stat.Base.{
  ℕ, zero, suc, ◌-◌, ◌<◌, ◌≡◌, refl, ap, ◌∙◌, [], ◌∷◌, ◌++◌, Option, arith, length, take_all, drop,
  append-nil,
}
use lin_stat.Base.Text.{Bytes}
use lin_stat.Base.Buffer.{zeros, c_str, NoNil, overlay, poke_nil, c_str-overlay, poke_nil-overlay}
use lin_stat.Tables.Ethtool.{DriverInfo, Names, Table, construct, made, ifr_name}

poke_nil-zeros : (i n : ℕ) → poke_nil i (zeros n) ≡ zeros n
poke_nil-zeros i zero = refl
poke_nil-zeros zero (suc n) = refl
poke_nil-zeros (suc i) (suc n) = ap (λ t. 0 ∷ t) (poke_nil-zeros i n)

c_str-drop-zeros : (k n : ℕ) → c_str (drop k (zeros n)) ≡ []
c_str-drop-zeros zero zero = refl
c_str-drop-zeros (suc k) zero = refl
c_str-drop-zeros zero (suc n) = refl
c_str-drop-zeros (suc k) (suc n) = c_str-drop-zeros k n

length-zeros : (n : ℕ) → length (zeros n) ≡ n
length-zeros zero = refl
length-zeros (suc n) = ap suc (length-zeros n)

c_str-ifr_name :
    (n : ℕ) (inst : Bytes) → NoNil inst → length inst < n → c_str (ifr_name n inst) ≡ inst
unfolding ifr_name
c_str-ifr_name n inst h l =
    ap (λ s. c_str (poke_nil (n - 1) (overlay s (zeros n)))) (take_all (n - 1) inst (omega arith))
    ∙ ap c_str (poke_nil-overlay (n - 1) inst (zeros n) (omega arith))
    ∙ ap (λ s. c_str (overlay inst s)) (poke_nil-zeros (n - 1) n)
    ∙ c_str-overlay inst (zeros n) h (omega (arith, length-zeros n))
    ∙ ap (λ s. inst ++ s) (c_str-drop-zeros (length inst) n)
    ∙ append-nil inst

construct-short :
    (n : ℕ) (inst : Bytes) (info : Option DriverInfo) (found : Names) (handshake : Option ℕ)
    (t : Table)
    → construct n inst info found handshake ≡ made t
    → length inst < n
unfolding construct
construct-short n inst info found handshake t e = ground arith

-- Once the constructor has accepted an instance, of text without nil bytes, each request names
-- the interface by the whole of it: nothing of the name is cut off.
pub ifr_name_lem :
    (n : ℕ) (inst : Bytes) (info : Option DriverInfo) (found : Names) (handshake : Option ℕ)
    (t : Table)
    → construct n inst info found handshake ≡ made t
    → NoNil inst
    → c_str (ifr_name n inst) ≡ inst
ifr_name_lem n inst info found handshake t e h =
    c_str-ifr_name n inst h (construct-short n inst info found handshake t e)
