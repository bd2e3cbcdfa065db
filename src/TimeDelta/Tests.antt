-- ===== src/TimeDelta/Tests.antt =====
-- statApp/src/devtdelta.cpp: messages, and one that shows a part of the one before.
use lin_stat.Base.{◌-◌, ◌≡◌, refl, ◌++◌, [], ◌∷◌, arith, length, drop}
use lin_stat.Base.Text.{Bytes, codes}
use lin_stat.Base.Buffer.{c_str, poke_nil}
use lin_stat.TimeDelta.{message, publish, publish_lem}

message_runs : message 93784 ≡ codes "1 D 2 H 3 M 4 S"
unfolding message
message_runs = refl

-- What the field holds after 2 h of uptime, if it held the message of a second before.
before : Bytes
before = codes "1 H 59 M 59 S" ++ (0 ∷ 0 ∷ [])

publish_lem_example :
    c_str (publish (codes "2 H 0 S") before)
    ≡ codes "2 H 0 S" ++ c_str (drop 7 (poke_nil (length before - 1) before))
unfolding before
publish_lem_example = publish_lem (codes "2 H 0 S") before (omega arith) (omega arith)

publish_runs : c_str (publish (codes "2 H 0 S") before) ≡ codes "2 H 0 SM 59 S"
unfolding publish before
publish_runs = refl
