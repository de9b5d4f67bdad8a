-- ===== src/Api/Accessors.antt =====
-- `GetStatusConditions`, `GetConditions` and `SetConditions` of the three types. A pointer to the
-- conditions is what is read there, and what is written.
use swagger_hub_controller.Base.{List}
use swagger_hub_controller.Kube.Meta.{Condition}
use swagger_hub_controller.Api.Definition.{SwaggerDefinition}
use swagger_hub_controller.Api.Hub.{SwaggerHub}
use swagger_hub_controller.Api.Specification.{SwaggerSpecification}

unfoldable pub get_definition_conditions : SwaggerDefinition → List Condition
get_definition_conditions d = d.status.conditions

unfoldable pub set_definition_conditions : List Condition → SwaggerDefinition → SwaggerDefinition
set_definition_conditions conditions d = record d {
  status = record (d.status) { conditions = conditions };
}

unfoldable pub get_hub_conditions : SwaggerHub → List Condition
get_hub_conditions h = h.status.conditions

unfoldable pub set_hub_conditions : List Condition → SwaggerHub → SwaggerHub
set_hub_conditions conditions h = record h {
  status = record (h.status) { conditions = conditions };
}

unfoldable pub get_specification_conditions : SwaggerSpecification → List Condition
get_specification_conditions s = s.status.conditions

unfoldable pub set_specification_conditions :
    List Condition → SwaggerSpecification → SwaggerSpecification
set_specification_conditions conditions s = record s {
  status = record (s.status) { conditions = conditions };
}
