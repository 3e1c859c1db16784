-- ===== src/Common/Tests.antt =====
-- The filter on concrete exceptions, and the theorems at them.
use recruitment_platform_be.Prelude.{◌≡◌, ◌≢◌, ◌⊎◌, ◌<◌, refl, none}
use recruitment_platform_be.Common.Exceptions.{Category, DomainException}
use recruitment_platform_be.Common.Filter.{domain_exception, prisma_error, catch}
use recruitment_platform_be.Common.Filter.Laws.{catch-domain_exception}

abbrev unavailable : DomainException
unavailable = record {
  category = Category.external_service;
  message = "provider timed out";
  code = "AI_PROVIDER_UNAVAILABLE";
}

unique_violation_409 : (catch (prisma_error "P2002" none)).status ≡ 409
unfolding catch
unique_violation_409 = refl

catch-domain_exception_example :
    ((unavailable.category ≢ Category.external_service)
      × ((catch (domain_exception unavailable)).status < 500)
      × ((catch (domain_exception unavailable)).code ≡ unavailable.code)
      × ((catch (domain_exception unavailable)).message ≡ unavailable.message))
    ⊎ ((unavailable.category ≡ Category.external_service)
        × ((catch (domain_exception unavailable)).status ≡ 503)
        × ((catch (domain_exception unavailable)).code ≡ "INTERNAL_SERVER_ERROR")
        × ((catch (domain_exception unavailable)).message ≡ "Internal server error"))
catch-domain_exception_example = catch-domain_exception unavailable
