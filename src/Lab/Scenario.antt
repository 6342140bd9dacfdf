-- ===== src/Lab/Scenario.antt =====
-- services/platform-api/internal/lab/scenario.go: the scenario of each course that has a lab.
use website_go_based.Base.{ℕ, Bool, true, false, Option, none, some, String, if◌then◌else◌}
use website_go_based.Base.Text.{same_text}
use website_go_based.Store.{
  ScenarioType, application_data_separation, application_cluster, multi_level_cache,
}

pub record Scenario : Type 0 where
  pub scenario_type : ScenarioType
  pub template_id : String
  pub initial_instances : ℕ
  pub temporary_containers : ℕ
  pub redis_required : Bool

-- The map literal `scenariosByCourseSlug`.
unfoldable pub scenarios_by_course_slug : String → Option Scenario
scenarios_by_course_slug slug =
    if same_text slug "application-data-separation"
    then some (record {
      scenario_type = application_data_separation;
      template_id = "application_data_separation_scenario_v1";
      initial_instances = 1;
      temporary_containers = 1;
      redis_required = false;
    })
    else if same_text slug "application-cluster"
    then some (record {
      scenario_type = application_cluster;
      template_id = "application_cluster_scenario_v1";
      initial_instances = 1;
      temporary_containers = 1;
      redis_required = false;
    })
    else if same_text slug "multi-level-cache"
    then some (record {
      scenario_type = multi_level_cache;
      template_id = "multi_level_cache_scenario_v1";
      initial_instances = 3;
      temporary_containers = 4;
      redis_required = true;
    })
    else none

unfoldable pub scenario_for_course : String → String → Option Scenario
unfolding scenarios_by_course_slug
scenario_for_course slug status =
    if same_text status "active" then scenarios_by_course_slug slug else none
