-- ===== src/Mobile/Requests.antt =====
-- The requests of src/react-native-app/gateways/Api.gateway.ts beside those of the web client.
use opentelemetry_demo_mb3r.Client.{ApiCall}
use opentelemetry_demo_mb3r.Mobile.{MobileCall}

abbrev pub web_call : MobileCall → ApiCall
web_call (MobileCall.get_cart c) = ApiCall.get_cart c
web_call (MobileCall.add_cart_item c i) = ApiCall.add_cart_item c i
web_call MobileCall.empty_cart = ApiCall.empty_cart
web_call MobileCall.get_supported_currency_list = ApiCall.get_supported_currency_list
web_call (MobileCall.get_shipping_cost is c a) = ApiCall.get_shipping_cost is c a
web_call (MobileCall.place_order c o) = ApiCall.place_order c o
web_call (MobileCall.list_products c) = ApiCall.list_products c
web_call (MobileCall.get_product p c) = ApiCall.get_product p c
web_call (MobileCall.list_recommendations ps c) = ApiCall.list_recommendations ps c
web_call (MobileCall.list_ads ks) = ApiCall.list_ads ks
