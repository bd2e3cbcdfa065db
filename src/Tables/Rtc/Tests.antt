-- ===== src/Tables/Rtc/Tests.antt =====
-- statApp/src/tblRTC.cpp: a time that strptime() does not accept.
use lin_stat.Base.{ℕ, ◌≡◌, refl, inl, [], ◌∷◌, none, some}
use lin_stat.Base.Text.{Bytes, codes}
use lin_stat.Regex.{regex_match}
use lin_stat.Table.{Transaction}
use lin_stat.Tables.Rtc.{Calendar, crashed, update}
use lin_stat.Tables.Rtc.Malformed.{IsMalformed, update-IsMalformed}

-- A calendar that reads every date and no time.
abbrev calendar : Calendar
calendar = record {
  Tm = ℕ;
  zeroed = 0;
  strptime_time = λ val tm. none;
  strptime_date = λ val tm. some ([], tm);
  distance_gm = λ tm. 0;
  distance_local = λ tm. 3600;
}

abbrev line : Bytes
line = codes "rtc_time : --"

malformed : IsMalformed calendar line
unfolding regex_match
malformed = record {
  caps = (1, codes "rtc_time") ∷ (2, codes "--") ∷ [];
  parsed = refl;
  rejected = inl (refl, λ tm. refl);
}

abbrev fresh : Transaction ℕ
fresh = record { next = []; next_time = 0 }

update-IsMalformed_example : (update calendar (some (line ∷ [])) fresh).1 ≡ crashed
update-IsMalformed_example = update-IsMalformed calendar [] [] line fresh malformed
