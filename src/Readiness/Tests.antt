-- ===== src/Readiness/Tests.antt =====
-- A service whose dependencies all answer.
use deep_data_agent.Prelude.{◌≡◌, ◌↔◌, true, some, none, [], ◌∷◌}
use deep_data_agent.Readiness.{Dependencies, exit_code}
use deep_data_agent.Readiness.Laws.{IsServing, exit_code_zero}

abbrev serving : Dependencies
serving = record {
  has_api_key = true;
  model_url =
      some (record { scheme = "https"; hostname = some "h"; username = none; password = none });
  selected = some 1;
  script_heads = some ("4e43" ∷ []);
  database_heads = some ("4e43" ∷ []);
  pinged = some true;
  closes = true;
  root_stands = true;
  takes_files = true;
}

exit_code_zero_example : (exit_code serving ≡ 0) ↔ IsServing serving
exit_code_zero_example = exit_code_zero serving
