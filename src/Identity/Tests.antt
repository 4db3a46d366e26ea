-- ===== src/Identity/Tests.antt =====
-- The sample replay through Build of internal/replay/identity/identity.go.
use dota2_ob.Prelude.{◌≡◌, refl, some, insert, lookup}
use dota2_ob.Prelude.Int.{ℤ}
use dota2_ob.Prelude.Sort.{sort_strings, sort_by, insert_by, string_lt, lex_lt}
use dota2_ob.Prelude.Decimal.{format_uint, format_digits, parse_uint, parse_digits}
use dota2_ob.Raw.{FileInfo}
use dota2_ob.Raw.Summaries.{Summary}
use dota2_ob.Identity.{
  build, team_gate, check_teams, sides_by_id, names_by_id, file_teams, file_ids, join_entities,
  team_at, team_num_for_id, team_tag, contains, state_verified,
}
use dota2_ob.Identity.Participants.{
  build_participants, bind_players, bind_player, account_of, side_name, expected_by_account,
}
use dota2_ob.Identity.Sample.{hero_id_of, sample_match, file_info, sample_summary}
use dota2_ob.Identity.Verified.{IsVerified, build-IsVerified}

verified : (build hero_id_of sample_summary sample_match).state ≡ state_verified
unfolding build team_gate check_teams sides_by_id names_by_id file_teams file_ids join_entities
    team_at team_num_for_id team_tag contains build_participants bind_players bind_player account_of
    side_name expected_by_account insert lookup sort_strings sort_by insert_by string_lt lex_lt
    format_uint format_digits parse_uint parse_digits
verified = refl

-- A replay that names one team for both sides.
abbrev same_team : Summary ℤ
same_team = record sample_summary {
  file_info = some (record file_info { radiant_team_id = 2; dire_team_id = 2 });
}

same_team_run : (build hero_id_of same_team sample_match).state ≡ state_verified
unfolding build team_gate check_teams sides_by_id names_by_id file_teams file_ids join_entities
    team_at team_num_for_id team_tag contains build_participants bind_players bind_player account_of
    side_name expected_by_account insert lookup sort_strings sort_by insert_by string_lt lex_lt
    format_uint format_digits parse_uint parse_digits
same_team_run = refl

build-IsVerified_example :
    (fi : FileInfo ℤ) × IsVerified hero_id_of sample_summary sample_match fi
      (build hero_id_of sample_summary sample_match)
build-IsVerified_example = build-IsVerified hero_id_of sample_summary sample_match verified
