-- ===== src/Api/Conditions.antt =====
-- The conditions of the custom resources: api/v1beta1/types.go and the setters beside each type. A
-- setter reads the clock of the world, through `apimeta.SetStatusCondition`.
use swagger_hub_controller.Base.{ℕ, String, List}
use swagger_hub_controller.Kube.Meta.{Condition}
use swagger_hub_controller.Kube.Client.{Client}
use swagger_hub_controller.Api.Definition.{SwaggerDefinition}
use swagger_hub_controller.Api.Hub.{SwaggerHub}
use swagger_hub_controller.Api.Specification.{SwaggerSpecification}

abbrev pub condition_ready : String
condition_ready = "Ready"

abbrev pub condition_reconciling : String
condition_reconciling = "Reconciling"

abbrev pub condition_healthy : String
condition_healthy = "Healthy"

-- The values of `metav1.ConditionStatus` that are used.
abbrev pub condition_true : String
condition_true = "True"

abbrev pub condition_false : String
condition_false = "False"

module _ (K : Client) where
  unfoldable pub set_resource_condition :
      K.World → List Condition → String → String → String → String → ℕ → List Condition
  set_resource_condition w conditions condition status reason message generation =
      K.set_status_condition w conditions (record {
        condition_type = condition;
        status = status;
        reason = reason;
        message = message;
        observed_generation = generation;
        last_transition_time = "";
      })

  unfoldable pub swagger_definition_ready :
      String → String → String → K.World → SwaggerDefinition → SwaggerDefinition
  unfolding set_resource_condition
  swagger_definition_ready status reason message w d = record d {
    status = record (d.status) {
      conditions =
          set_resource_condition w d.status.conditions condition_ready status reason message
            d.metadata.generation;
    };
  }

  unfoldable pub swagger_hub_reconciling :
      String → String → String → K.World → SwaggerHub → SwaggerHub
  unfolding set_resource_condition
  swagger_hub_reconciling status reason message w h = record h {
    status = record (h.status) {
      conditions =
          set_resource_condition w h.status.conditions condition_reconciling status reason message
            h.metadata.generation;
    };
  }

  unfoldable pub swagger_hub_ready : String → String → String → K.World → SwaggerHub → SwaggerHub
  unfolding set_resource_condition
  swagger_hub_ready status reason message w h = record h {
    status = record (h.status) {
      conditions =
          set_resource_condition w h.status.conditions condition_ready status reason message
            h.metadata.generation;
    };
  }

  unfoldable pub swagger_hub_healthy : String → String → String → K.World → SwaggerHub → SwaggerHub
  unfolding set_resource_condition
  swagger_hub_healthy status reason message w h = record h {
    status = record (h.status) {
      conditions =
          set_resource_condition w h.status.conditions condition_healthy status reason message
            h.metadata.generation;
    };
  }

  unfoldable pub swagger_specification_ready :
      String → String → String → K.World → SwaggerSpecification → SwaggerSpecification
  unfolding set_resource_condition
  swagger_specification_ready status reason message w s = record s {
    status = record (s.status) {
      conditions =
          set_resource_condition w s.status.conditions condition_ready status reason message
            s.metadata.generation;
    };
  }

  unfoldable pub swagger_definition_reconciling :
      String → String → String → K.World → SwaggerDefinition → SwaggerDefinition
  unfolding set_resource_condition
  swagger_definition_reconciling status reason message w d = record d {
    status = record (d.status) {
      conditions =
          set_resource_condition w d.status.conditions condition_reconciling status reason message
            d.metadata.generation;
    };
  }

  unfoldable pub swagger_specification_reconciling :
      String → String → String → K.World → SwaggerSpecification → SwaggerSpecification
  unfolding set_resource_condition
  swagger_specification_reconciling status reason message w s = record s {
    status = record (s.status) {
      conditions =
          set_resource_condition w s.status.conditions condition_reconciling status reason message
            s.metadata.generation;
    };
  }
